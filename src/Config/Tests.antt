-- ===== src/Config/Tests.antt =====
-- The settings at concrete inputs.
use trading_chart_viewer.Common.{◌≡◌, true, false, refl, Option, none, some, List, [], ◌∷◌, ◌++◌}
use trading_chart_viewer.Domain.Label.{Text, codes}
use trading_chart_viewer.Config.{LogLevel, default_config}
use trading_chart_viewer.Config.Levels.{
  parse_log_level, try_parse_log_level, log_level_to_string, level_to_string, level_or,
  parse_log_level-try_parse,
}
use trading_chart_viewer.Config.Texts.{same_text, starts_with}
use trading_chart_viewer.Config.Sources.{env_names, assign}
use trading_chart_viewer.Config.CommandLine.{provide, parse_cli, obey, request_of, long_request}
use trading_chart_viewer.Config.Window.{IsWindowed, provide-IsWindowed}
use trading_chart_viewer.Config.Precedence.{
  last_given, file_settings, env_settings, cli_settings, chosen_lines,
}
use trading_chart_viewer.Config.Given.{is_symbol, is_interval, is_rest_host, provide-last_given}

abbrev a_file : Text → Option (List Text)
a_file path = elim (same_text path (codes "app.conf")) [
  | true ↦ some (codes " symbol = ETHUSDT" ∷ codes "windowWidth=100" ∷ [])
  | false ↦ none
]

abbrev an_environment : Text → Option Text
an_environment name = elim (same_text name (codes "TTP_SYMBOL")) [
  | true ↦ some (codes "ADAUSDT")
  | false ↦ none
]

abbrev some_arguments : List (Option Text)
some_arguments =
    some (codes "--config")
    ∷ some (codes "app.conf")
    ∷ some (codes "-i")
    ∷ some (codes "5m")
    ∷ some (codes "--symbol=XRPUSDT")
    ∷ []

provide-IsWindowed_example : IsWindowed (provide a_file an_environment some_arguments)
provide-IsWindowed_example = provide-IsWindowed a_file an_environment some_arguments

provide-last_given_example :
    let given =
      file_settings (chosen_lines a_file an_environment some_arguments)
      ++ (env_settings an_environment env_names ++ cli_settings false some_arguments) in
    let cfg = provide a_file an_environment some_arguments in
    (cfg.symbol ≡ last_given is_symbol default_config.symbol given)
    × (cfg.interval ≡ last_given is_interval default_config.interval given)
    × (cfg.rest_host ≡ last_given is_rest_host default_config.rest_host given)
provide-last_given_example = provide-last_given a_file an_environment some_arguments

log_level_example :
    (parse_log_level (codes "Warning")
      ≡ level_or LogLevel.info (try_parse_log_level (codes "Warning")))
    × (try_parse_log_level (log_level_to_string LogLevel.warn) ≡ some LogLevel.warn)
    × (try_parse_log_level (level_to_string LogLevel.warn) ≡ some LogLevel.warn)
    × (parse_log_level (log_level_to_string LogLevel.warn) ≡ LogLevel.warn)
log_level_example = parse_log_level-try_parse (codes "Warning") LogLevel.warn

-- The command line wins over the environment and the file.
precedence_test : (provide a_file an_environment some_arguments).symbol ≡ codes "XRPUSDT"
unfolding provide parse_cli obey request_of same_text starts_with long_request assign
precedence_test = refl
