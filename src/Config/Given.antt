-- ===== src/Config/Given.antt =====
-- The settings that are plain texts, one by one.
use trading_chart_viewer.Common.{◌≡◌, refl, Bool, true, false, Option, List, ◌++◌, if◌then◌else◌}
use trading_chart_viewer.Domain.Label.{Text}
use trading_chart_viewer.Config.{default_config}
use trading_chart_viewer.Config.Sources.{Key, assign, env_names}
use trading_chart_viewer.Config.CommandLine.{provide}
use trading_chart_viewer.Config.Precedence.{
  IsField, provide-field, last_given, file_settings, env_settings, cli_settings, chosen_lines,
}

abbrev pub is_symbol : Key → Bool
is_symbol key = elim key [ Key.symbol ↦ true | _ ↦ false ]

symbol-IsField : IsField is_symbol (λ c. c.symbol)
unfolding assign
symbol-IsField = record {
  assigned = λ key value cfg.
      elim key as (λ k. (assign k value cfg).symbol ≡ (if is_symbol k then value else cfg.symbol)) [
        | Key.symbol ↦ refl
        | Key.interval ↦ refl
        | Key.data_dir ↦ refl
        | Key.cache_dir ↦ refl
        | Key.config_file ↦ refl
        | Key.rest_host ↦ refl
        | Key.ws_host ↦ refl
        | Key.ws_path ↦ refl
        | Key.window_width ↦ refl
        | Key.window_height ↦ refl
        | Key.fullscreen ↦ refl
        | Key.log_level ↦ refl
      ];
  from_file = λ cfg path. refl;
  helped = λ cfg. refl;
  versioned = λ cfg. refl;
  filled = λ cfg. refl;
}

abbrev pub is_interval : Key → Bool
is_interval key = elim key [ Key.interval ↦ true | _ ↦ false ]

interval-IsField : IsField is_interval (λ c. c.interval)
unfolding assign
interval-IsField = record {
  assigned = λ key value cfg.
      elim key
        as (λ k. (assign k value cfg).interval ≡ (if is_interval k then value else cfg.interval)) [
          | Key.symbol ↦ refl
          | Key.interval ↦ refl
          | Key.data_dir ↦ refl
          | Key.cache_dir ↦ refl
          | Key.config_file ↦ refl
          | Key.rest_host ↦ refl
          | Key.ws_host ↦ refl
          | Key.ws_path ↦ refl
          | Key.window_width ↦ refl
          | Key.window_height ↦ refl
          | Key.fullscreen ↦ refl
          | Key.log_level ↦ refl
        ];
  from_file = λ cfg path. refl;
  helped = λ cfg. refl;
  versioned = λ cfg. refl;
  filled = λ cfg. refl;
}

abbrev pub is_rest_host : Key → Bool
is_rest_host key = elim key [ Key.rest_host ↦ true | _ ↦ false ]

rest_host-IsField : IsField is_rest_host (λ c. c.rest_host)
unfolding assign
rest_host-IsField = record {
  assigned = λ key value cfg.
      elim key
        as (λ k.
          (assign k value cfg).rest_host ≡ (if is_rest_host k then value else cfg.rest_host)) [
            | Key.symbol ↦ refl
            | Key.interval ↦ refl
            | Key.data_dir ↦ refl
            | Key.cache_dir ↦ refl
            | Key.config_file ↦ refl
            | Key.rest_host ↦ refl
            | Key.ws_host ↦ refl
            | Key.ws_path ↦ refl
            | Key.window_width ↦ refl
            | Key.window_height ↦ refl
            | Key.fullscreen ↦ refl
            | Key.log_level ↦ refl
          ];
  from_file = λ cfg path. refl;
  helped = λ cfg. refl;
  versioned = λ cfg. refl;
  filled = λ cfg. refl;
}

-- The symbol, the interval and the host of the REST service are the last value that is given for
-- them, in the lines of the chosen file, then in the environment, then on the command line, and the
-- default where none is given.
pub provide-last_given :
    (files : Text → Option (List Text)) (getenv : Text → Option Text) (args : List (Option Text))
    → let given =
        file_settings (chosen_lines files getenv args)
        ++ (env_settings getenv env_names ++ cli_settings false args) in
      let cfg = provide files getenv args in
      (cfg.symbol ≡ last_given is_symbol default_config.symbol given)
      × (cfg.interval ≡ last_given is_interval default_config.interval given)
      × (cfg.rest_host ≡ last_given is_rest_host default_config.rest_host given)
provide-last_given files getenv args = (
  provide-field is_symbol (λ c. c.symbol) symbol-IsField files getenv args,
  provide-field is_interval (λ c. c.interval) interval-IsField files getenv args,
  provide-field is_rest_host (λ c. c.rest_host) rest_host-IsField files getenv args,
)
