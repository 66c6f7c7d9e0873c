-- ===== src/Config/Sources.antt =====
-- src/config/ConfigProvider.cpp: the settings from the file, the environment and the command line.
-- The process's environment, its files and its arguments are arguments here.
use trading_chart_viewer.Common.{
  Bool, true, ◌||◌, Option, none, some, List, [], ◌∷◌, ◌==◌, if◌then◌else◌,
}
use trading_chart_viewer.Common.Int.{ℤ, pos, max_ℤ}
use trading_chart_viewer.Domain.Label.{Text, codes}
use trading_chart_viewer.Config.{Config}
use trading_chart_viewer.Config.Texts.{same_text, trim, parse_bool, parse_int, split_setting}
use trading_chart_viewer.Config.Levels.{parse_log_level}

-- What a text can set, from whichever source.
pub data Key : Type 0 where
  symbol interval data_dir cache_dir config_file rest_host ws_host ws_path : Key
  window_width window_height fullscreen log_level : Key

abbrev pub min_window_size : ℤ
min_window_size = pos 320

unfoldable pub width_of : Option ℤ → ℤ → ℤ
width_of none old = old
width_of (some value) old = max_ℤ value min_window_size

abbrev pub bool_or : Bool → Option Bool → Bool
bool_or b none = b
bool_or b (some c) = c

unfoldable pub assign : Key → Text → Config → Config
assign Key.symbol value cfg = record cfg { symbol = value }
assign Key.interval value cfg = record cfg { interval = value }
assign Key.data_dir value cfg = record cfg { data_dir = value }
assign Key.cache_dir value cfg = record cfg { cache_dir = value }
assign Key.config_file value cfg = record cfg { config_file = value }
assign Key.rest_host value cfg = record cfg { rest_host = value }
assign Key.ws_host value cfg = record cfg { ws_host = value }
assign Key.ws_path value cfg = record cfg { ws_path_template = value }
assign Key.window_width value cfg = record cfg {
  window_width = width_of (parse_int value) cfg.window_width;
}
assign Key.window_height value cfg = record cfg {
  window_height = width_of (parse_int value) cfg.window_height;
}
assign Key.fullscreen value cfg = record cfg {
  window_fullscreen = bool_or cfg.window_fullscreen (parse_bool value);
}
assign Key.log_level value cfg = record cfg { log_level = parse_log_level value }

abbrev pub assign_if : Key → Option Text → Config → Config
assign_if key none cfg = cfg
assign_if key (some value) cfg = assign key value cfg

-- The variables of the environment, in the order of the source.
abbrev pub env_names : List (Key × Text)
env_names =
    (Key.symbol, codes "TTP_SYMBOL")
    ∷ (Key.interval, codes "TTP_INTERVAL")
    ∷ (Key.data_dir, codes "TTP_DATA_DIR")
    ∷ (Key.cache_dir, codes "TTP_CACHE_DIR")
    ∷ (Key.window_width, codes "TTP_WINDOW_W")
    ∷ (Key.window_height, codes "TTP_WINDOW_H")
    ∷ (Key.fullscreen, codes "TTP_FULLSCREEN")
    ∷ (Key.log_level, codes "TTP_LOG_LEVEL")
    ∷ (Key.rest_host, codes "TTP_REST_HOST")
    ∷ (Key.ws_host, codes "TTP_WS_HOST")
    ∷ (Key.ws_path, codes "TTP_WS_PATH")
    ∷ []

unfoldable pub assign_env : (Text → Option Text) → List (Key × Text) → Config → Config
assign_env getenv [] cfg = cfg
assign_env getenv ((key, name) ∷ names) cfg =
    assign_env getenv names (assign_if key (getenv name) cfg)

-- `parseEnv_`, over `std::getenv`.
unfoldable pub parse_env : (Text → Option Text) → Config → Config
parse_env getenv cfg = assign_env getenv env_names cfg

unfoldable pub file_key : Text → Option Key
file_key key =
    if same_text key (codes "symbol")
    then some Key.symbol
    else if same_text key (codes "interval")
    then some Key.interval
    else if same_text key (codes "dataDir")
    then some Key.data_dir
    else if same_text key (codes "cacheDir")
    then some Key.cache_dir
    else if same_text key (codes "restHost")
    then some Key.rest_host
    else if same_text key (codes "wsHost")
    then some Key.ws_host
    else if same_text key (codes "windowWidth")
    then some Key.window_width
    else if same_text key (codes "windowHeight")
    then some Key.window_height
    else if same_text key (codes "fullscreen")
    then some Key.fullscreen
    else if same_text key (codes "logLevel")
    then some Key.log_level
    else if same_text key (codes "wsPath") || same_text key (codes "wsPathTemplate")
    then some Key.ws_path
    else none

-- What a line of the file sets, if anything.
unfoldable pub setting_of : Option (Text × Text) → Option (Key × Text)
setting_of none = none
setting_of (some (key, value)) = with_value (file_key (trim key)) (trim value)
  where
    with_value : Option Key → Text → Option (Key × Text)
    with_value none v = none
    with_value (some k) v = some (k, v)

unfoldable pub is_comment : Text → Bool
is_comment [] = true
is_comment (c ∷ r) = c == b'#'

unfoldable pub line_setting : Text → Option (Key × Text)
line_setting line =
    let trimmed = trim line in
    if is_comment trimmed then none else setting_of (split_setting trimmed)

abbrev pub assign_setting : Option (Key × Text) → Config → Config
assign_setting none cfg = cfg
assign_setting (some (key, value)) cfg = assign key value cfg

-- The loop of `parseFile_` over the lines.
unfoldable pub parse_lines : List Text → Config → Config
parse_lines [] cfg = cfg
parse_lines (line ∷ lines) cfg = parse_lines lines (assign_setting (line_setting line) cfg)
