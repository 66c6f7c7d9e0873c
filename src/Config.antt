-- ===== src/Config.antt =====
-- src/config/Config.h: the settings and the levels of the log.
pub mod Texts
pub mod Levels
pub mod Sources
pub mod CommandLine
pub mod Window
pub mod Precedence
pub mod Given
pub mod Tests
use trading_chart_viewer.Common.{ℕ, Bool, true, false, [], ◌≤◌, leb}
use trading_chart_viewer.Common.Int.{ℤ, pos}
use trading_chart_viewer.Domain.Label.{Text, codes}

pub data LogLevel : Type 0 where
  trace debug info warn error : LogLevel

unfoldable pub log_level_severity : LogLevel → ℕ
log_level_severity LogLevel.trace = 0
log_level_severity LogLevel.debug = 1
log_level_severity LogLevel.info = 2
log_level_severity LogLevel.warn = 3
log_level_severity LogLevel.error = 4

unfoldable pub log_level_at_least : LogLevel → LogLevel → Bool
unfolding log_level_severity
log_level_at_least level threshold = leb (log_level_severity level) (log_level_severity threshold)

pub record Config : Type 0 where
  pub symbol : Text
  pub interval : Text
  pub data_dir : Text
  pub cache_dir : Text
  pub config_file : Text
  pub rest_host : Text
  pub ws_host : Text
  pub ws_path_template : Text
  pub window_width : ℤ
  pub window_height : ℤ
  pub window_fullscreen : Bool
  pub log_level : LogLevel
  pub show_help : Bool
  pub show_version : Bool

-- `Config{}`.
abbrev pub default_config : Config
default_config = record {
  symbol = codes "BTCUSDT";
  interval = codes "1m";
  data_dir = codes "./data";
  cache_dir = codes "./cache";
  config_file = [];
  rest_host = codes "api.binance.com";
  ws_host = codes "stream.binance.com";
  ws_path_template = codes "/ws/%s@kline_%s";
  window_width = pos 1_280;
  window_height = pos 720;
  window_fullscreen = false;
  log_level = LogLevel.info;
  show_help = false;
  show_version = false;
}
