-- ===== src/Config/Window.antt =====
-- The size of the window that the settings give.
use trading_chart_viewer.Common.{
  Bool, true, false, Option, none, some, List, [], ◌∷◌, arith, Bool-cases, Option-cases, inl, inr,
}
use trading_chart_viewer.Common.Int.{ℤ, pos, ◌≤ℤ◌, max_ℤ}
use trading_chart_viewer.Domain.Label.{Text, codes}
use trading_chart_viewer.Storage.Record.{is_empty}
use trading_chart_viewer.Config.{Config, default_config}
use trading_chart_viewer.Config.Texts.{parse_int}
use trading_chart_viewer.Config.Sources.{
  Key, width_of, assign, assign_if, parse_env, env_names, assign_env, line_setting, assign_setting,
  parse_lines,
}
use trading_chart_viewer.Config.CommandLine.{
  Request, request_of, following, obey, parse_cli, cli_config_path, load_file, load_env_file,
  provide,
}

-- Both sides of the window have at least 320 pixels.
pub record IsWindowed (cfg : Config) : Type 0 where
  pub wide : pos 320 ≤ℤ cfg.window_width
  pub high : pos 320 ≤ℤ cfg.window_height

width_of_bound : (o : Option ℤ) (old : ℤ) → pos 320 ≤ℤ old → pos 320 ≤ℤ width_of o old
unfolding width_of max_ℤ
width_of_bound none old h = h
width_of_bound (some value) old h = ground arith

assign-IsWindowed :
    (key : Key) (value : Text) (cfg : Config) → IsWindowed cfg → IsWindowed (assign key value cfg)
unfolding assign
assign-IsWindowed Key.symbol value cfg h = record { wide = h.wide; high = h.high }
assign-IsWindowed Key.interval value cfg h = record { wide = h.wide; high = h.high }
assign-IsWindowed Key.data_dir value cfg h = record { wide = h.wide; high = h.high }
assign-IsWindowed Key.cache_dir value cfg h = record { wide = h.wide; high = h.high }
assign-IsWindowed Key.config_file value cfg h = record { wide = h.wide; high = h.high }
assign-IsWindowed Key.rest_host value cfg h = record { wide = h.wide; high = h.high }
assign-IsWindowed Key.ws_host value cfg h = record { wide = h.wide; high = h.high }
assign-IsWindowed Key.ws_path value cfg h = record { wide = h.wide; high = h.high }
assign-IsWindowed Key.window_width value cfg h = record {
  wide = width_of_bound (parse_int value) cfg.window_width h.wide;
  high = h.high;
}
assign-IsWindowed Key.window_height value cfg h = record {
  wide = h.wide;
  high = width_of_bound (parse_int value) cfg.window_height h.high;
}
assign-IsWindowed Key.fullscreen value cfg h = record { wide = h.wide; high = h.high }
assign-IsWindowed Key.log_level value cfg h = record { wide = h.wide; high = h.high }

assign_if-IsWindowed :
    (key : Key) (value : Option Text) (cfg : Config)
    → IsWindowed cfg
    → IsWindowed (assign_if key value cfg)
assign_if-IsWindowed key none cfg h = h
assign_if-IsWindowed key (some value) cfg h = assign-IsWindowed key value cfg h

assign_env-IsWindowed :
    (getenv : Text → Option Text) (names : List (Key × Text)) (cfg : Config)
    → IsWindowed cfg
    → IsWindowed (assign_env getenv names cfg)
unfolding assign_env
assign_env-IsWindowed getenv [] cfg h = h
assign_env-IsWindowed getenv ((key, name) ∷ names) cfg h =
    assign_env-IsWindowed getenv names (assign_if key (getenv name) cfg)
      (assign_if-IsWindowed key (getenv name) cfg h)

assign_setting-IsWindowed :
    (o : Option (Key × Text)) (cfg : Config) → IsWindowed cfg → IsWindowed (assign_setting o cfg)
assign_setting-IsWindowed none cfg h = h
assign_setting-IsWindowed (some (key, value)) cfg h = assign-IsWindowed key value cfg h

parse_lines-IsWindowed :
    (lines : List Text) (cfg : Config) → IsWindowed cfg → IsWindowed (parse_lines lines cfg)
unfolding parse_lines
parse_lines-IsWindowed [] cfg h = h
parse_lines-IsWindowed (line ∷ lines) cfg h =
    parse_lines-IsWindowed lines (assign_setting (line_setting line) cfg)
      (assign_setting-IsWindowed (line_setting line) cfg h)

obey-IsWindowed :
    (r : Request) (after : Option Text) (cfg : Config)
    → IsWindowed cfg
    → IsWindowed (obey r after cfg).0
unfolding obey
obey-IsWindowed Request.help after cfg h = record { wide = h.wide; high = h.high }
obey-IsWindowed Request.version after cfg h = record { wide = h.wide; high = h.high }
obey-IsWindowed Request.fullscreen_on after cfg h = record { wide = h.wide; high = h.high }
obey-IsWindowed (Request.next key) after cfg h = assign_if-IsWindowed key after cfg h
obey-IsWindowed (Request.inline key value) after cfg h = assign-IsWindowed key value cfg h
obey-IsWindowed Request.ignored after cfg h = h

parse_cli-IsWindowed :
    (used : Bool) (args : List (Option Text)) (cfg : Config)
    → IsWindowed cfg
    → IsWindowed (parse_cli used args cfg)
unfolding parse_cli
parse_cli-IsWindowed used [] cfg h = h
parse_cli-IsWindowed true (a ∷ rest) cfg h = parse_cli-IsWindowed false rest cfg h
parse_cli-IsWindowed false (none ∷ rest) cfg h = parse_cli-IsWindowed false rest cfg h
parse_cli-IsWindowed false (some arg ∷ rest) cfg h =
    let obeyed = obey (request_of arg) (following rest) cfg in
    parse_cli-IsWindowed obeyed.1 rest obeyed.0
      (obey-IsWindowed (request_of arg) (following rest) cfg h)

load_file-IsWindowed :
    (files : Text → Option (List Text)) (path : Text) (cfg : Config)
    → IsWindowed cfg
    → IsWindowed (load_file files path cfg)
unfolding load_file
load_file-IsWindowed files path cfg h = elim (Option-cases (files path)) [
  | inl e ↦ rw e h
  | inr (lines, e) ↦
      let w = parse_lines-IsWindowed lines cfg h in rw e (record { wide = w.wide; high = w.high })
]

load_env_file-IsWindowed :
    (files : Text → Option (List Text)) (path : Option Text) (cfg : Config)
    → IsWindowed cfg
    → IsWindowed (load_env_file files path cfg)
unfolding load_env_file
load_env_file-IsWindowed files none cfg h = h
load_env_file-IsWindowed files (some path) cfg h = load_file-IsWindowed files path cfg h

-- Whatever the file, the environment and the command line hold, the settings give a window of at
-- least 320 by 320.
pub provide-IsWindowed :
    (files : Text → Option (List Text)) (getenv : Text → Option Text) (args : List (Option Text))
    → IsWindowed (provide files getenv args)
unfolding provide parse_env
provide-IsWindowed files getenv args =
    let start : IsWindowed default_config = record { wide = omega arith; high = omega arith } in
    let path = cli_config_path false [] args in
    parse_cli-IsWindowed false args _ (
      assign_env-IsWindowed getenv env_names _ (elim (Bool-cases (is_empty path)) [
        | inl e ↦ rw e (load_env_file-IsWindowed files (getenv (codes "TTP_CONFIG")) _ start)
        | inr e ↦ rw e (load_file-IsWindowed files path _ start)
      ]))
