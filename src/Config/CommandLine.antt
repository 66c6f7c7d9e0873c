-- ===== src/Config/CommandLine.antt =====
-- src/config/ConfigProvider.cpp: the command line, and the constructor, which takes the file first,
-- then the environment, then the command line.
use trading_chart_viewer.Common.{
  Bool, true, false, ◌||◌, Option, none, some, List, [], ◌∷◌, drop, if◌then◌else◌,
}
use trading_chart_viewer.Domain.Label.{Text, codes}
use trading_chart_viewer.Storage.Record.{is_empty}
use trading_chart_viewer.Config.{Config, default_config}
use trading_chart_viewer.Config.Texts.{same_text, starts_with}
use trading_chart_viewer.Config.Sources.{Key, assign, assign_if, parse_env, parse_lines}

-- What an argument of the command line asks for.
pub data Request : Type 0 where
  help version fullscreen_on : Request
  next : Key → Request
  inline : Key → Text → Request
  ignored : Request

-- The first cases of `parseCli_`, then the others, in the order of the source.
unfoldable pub long_request : Text → Request
long_request arg =
    if starts_with (codes "--log-level=") arg
    then Request.inline Key.log_level (drop 12 arg)
    else if starts_with (codes "--window-width=") arg
    then Request.inline Key.window_width (drop 15 arg)
    else if starts_with (codes "--window-height=") arg
    then Request.inline Key.window_height (drop 16 arg)
    else if starts_with (codes "--data-dir=") arg
    then Request.inline Key.data_dir (drop 11 arg)
    else if starts_with (codes "--cache-dir=") arg
    then Request.inline Key.cache_dir (drop 12 arg)
    else if starts_with (codes "--symbol=") arg
    then Request.inline Key.symbol (drop 9 arg)
    else if starts_with (codes "--interval=") arg
    then Request.inline Key.interval (drop 11 arg)
    else if starts_with (codes "--rest-host=") arg
    then Request.inline Key.rest_host (drop 12 arg)
    else if starts_with (codes "--ws-host=") arg
    then Request.inline Key.ws_host (drop 10 arg)
    else if starts_with (codes "--ws-path=") arg
    then Request.inline Key.ws_path (drop 10 arg)
    else Request.ignored

abbrev is_option : Text → Text → Text → Bool
is_option arg long short = same_text arg long || same_text arg short

unfoldable pub request_of : Text → Request
request_of arg =
    if same_text arg (codes "--help")
    then Request.help
    else if same_text arg (codes "--version")
    then Request.version
    else if is_option arg (codes "--symbol") (codes "-s")
    then Request.next Key.symbol
    else if is_option arg (codes "--interval") (codes "-i")
    then Request.next Key.interval
    else if is_option arg (codes "--data-dir") (codes "-d")
    then Request.next Key.data_dir
    else if is_option arg (codes "--cache-dir") (codes "-c")
    then Request.next Key.cache_dir
    else if same_text arg (codes "--config")
    then Request.next Key.config_file
    else if starts_with (codes "--config=") arg
    then Request.inline Key.config_file (drop 9 arg)
    else if is_option arg (codes "--window-width") (codes "-w")
    then Request.next Key.window_width
    else if is_option arg (codes "--window-height") (codes "-h")
    then Request.next Key.window_height
    else if is_option arg (codes "--fullscreen") (codes "-f")
    then Request.fullscreen_on
    else if starts_with (codes "--fullscreen=") arg
    then Request.inline Key.fullscreen (drop 13 arg)
    else if is_option arg (codes "--log-level") (codes "-l")
    then Request.next Key.log_level
    else if same_text arg (codes "--rest-host")
    then Request.next Key.rest_host
    else if same_text arg (codes "--ws-host")
    then Request.next Key.ws_host
    else if same_text arg (codes "--ws-path")
    then Request.next Key.ws_path
    else long_request arg

-- The argument behind the current one, which is missing at the end and may be a null pointer.
abbrev pub following : List (Option Text) → Option Text
following [] = none
following (a ∷ rest) = a

abbrev pub is_given : Option Text → Bool
is_given none = false
is_given (some value) = true

-- The settings after one argument, and whether it has used the one behind it.
unfoldable pub obey : Request → Option Text → Config → Config × Bool
obey Request.help after cfg = (record cfg { show_help = true }, false)
obey Request.version after cfg = (record cfg { show_version = true }, false)
obey Request.fullscreen_on after cfg = (record cfg { window_fullscreen = true }, false)
obey (Request.next key) after cfg = (assign_if key after cfg, is_given after)
obey (Request.inline key value) after cfg = (assign key value cfg, false)
obey Request.ignored after cfg = (cfg, false)

-- The loop of `parseCli_` over the arguments behind the program's name; `used` says that the
-- argument before has used the first of them.
unfoldable pub parse_cli : Bool → List (Option Text) → Config → Config
parse_cli used [] cfg = cfg
parse_cli true (a ∷ rest) cfg = parse_cli false rest cfg
parse_cli false (none ∷ rest) cfg = parse_cli false rest cfg
parse_cli false (some arg ∷ rest) cfg =
    let (obeyed, used) = obey (request_of arg) (following rest) cfg in parse_cli used rest obeyed

-- The constructor's own loop, which looks only for the file.
unfoldable pub cli_config_path : Bool → Text → List (Option Text) → Text
cli_config_path used path [] = path
cli_config_path true path (a ∷ rest) = cli_config_path false path rest
cli_config_path false path (none ∷ rest) = cli_config_path false path rest
cli_config_path false path (some arg ∷ rest) =
    let after = following rest in
    let plain = same_text arg (codes "--config") in
    cli_config_path (if plain then is_given after else false)
      (if plain
        then text_or path after
        else if starts_with (codes "--config=") arg
        then drop 9 arg
        else path)
      rest
  where
    text_or : Text → Option Text → Text
    text_or t none = t
    text_or t (some s) = s

-- A file that can be opened gives its lines.
unfoldable pub load_file : (Text → Option (List Text)) → Text → Config → Config
load_file files path cfg = loaded (files path)
  where
    loaded : Option (List Text) → Config
    loaded none = cfg
    loaded (some lines) = record (parse_lines lines cfg) { config_file = path }

unfoldable pub load_env_file : (Text → Option (List Text)) → Option Text → Config → Config
load_env_file files none cfg = cfg
load_env_file files (some path) cfg = load_file files path cfg

-- The constructor.
unfoldable pub provide :
    (Text → Option (List Text)) → (Text → Option Text) → List (Option Text) → Config
provide files getenv args =
    let path = cli_config_path false [] args in
    let from_file =
      if is_empty path
      then load_env_file files (getenv (codes "TTP_CONFIG")) default_config
      else load_file files path default_config in
    parse_cli false args (parse_env getenv from_file)
