-- ===== src/Config/Precedence.antt =====
-- Which source a setting comes from.
use mathlib.Core.List.{append_assoc}
use trading_chart_viewer.Common.{
  ◌≡◌, refl, ap, sym, ◌∙◌, Bool, true, false, Option, none, some, List, [], ◌∷◌, ◌++◌,
  if◌then◌else◌, Bool-cases, Option-cases, inl, inr,
}
use trading_chart_viewer.Domain.Label.{Text, codes}
use trading_chart_viewer.Storage.Record.{is_empty}
use trading_chart_viewer.Config.{Config, default_config}
use trading_chart_viewer.Config.Sources.{
  Key, assign, env_names, assign_env, parse_env, line_setting, parse_lines,
}
use trading_chart_viewer.Config.CommandLine.{
  Request, request_of, following, is_given, obey, parse_cli, cli_config_path, load_file,
  load_env_file, provide,
}

-- The settings that each source holds, in order.
abbrev one_setting : Key → Option Text → List (Key × Text)
one_setting key none = []
one_setting key (some value) = (key, value) ∷ []

abbrev listed : Option (Key × Text) → List (Key × Text)
listed none = []
listed (some s) = s ∷ []

unfoldable pub env_settings : (Text → Option Text) → List (Key × Text) → List (Key × Text)
env_settings getenv [] = []
env_settings getenv ((key, name) ∷ names) =
    one_setting key (getenv name) ++ env_settings getenv names

unfoldable pub file_settings : List Text → List (Key × Text)
file_settings [] = []
file_settings (line ∷ lines) = listed (line_setting line) ++ file_settings lines

abbrev requested : Request → Option Text → List (Key × Text)
requested (Request.next key) after = one_setting key after
requested (Request.inline key value) after = (key, value) ∷ []
requested Request.help after = []
requested Request.version after = []
requested Request.fullscreen_on after = []
requested Request.ignored after = []

abbrev takes : Request → Option Text → Bool
takes (Request.next key) after = is_given after
takes (Request.inline key value) after = false
takes Request.help after = false
takes Request.version after = false
takes Request.fullscreen_on after = false
takes Request.ignored after = false

unfoldable pub cli_settings : Bool → List (Option Text) → List (Key × Text)
cli_settings used [] = []
cli_settings true (a ∷ rest) = cli_settings false rest
cli_settings false (none ∷ rest) = cli_settings false rest
cli_settings false (some arg ∷ rest) =
    let r = request_of arg in
    requested r (following rest) ++ cli_settings (takes r (following rest)) rest

abbrev lines_or_none : Option (List Text) → List Text
lines_or_none none = []
lines_or_none (some lines) = lines

abbrev env_lines : (Text → Option (List Text)) → Option Text → List Text
env_lines files none = []
env_lines files (some path) = lines_or_none (files path)

-- The lines of the file that is chosen: the command line's, else the environment's.
unfoldable pub chosen_lines :
    (Text → Option (List Text)) → (Text → Option Text) → List (Option Text) → List Text
chosen_lines files getenv args =
    let path = cli_config_path false [] args in
    if is_empty path
    then env_lines files (getenv (codes "TTP_CONFIG"))
    else lines_or_none (files path)

-- The last value that the settings with a key of `mine` give, or the default.
unfoldable pub last_given : (Key → Bool) → Text → List (Key × Text) → Text
last_given mine old [] = old
last_given mine old ((key, value) ∷ rest) = last_given mine (if mine key then value else old) rest

last_given-append :
    (mine : Key → Bool) (old : Text) (xs ys : List (Key × Text))
    → last_given mine old (xs ++ ys) ≡ last_given mine (last_given mine old xs) ys
unfolding last_given
last_given-append mine old [] ys = refl
last_given-append mine old ((key, value) ∷ xs) ys =
    last_given-append mine (if mine key then value else old) xs ys

-- A field that the settings of one key write as they are, and nothing else does.
pub record IsField (mine : Key → Bool) (p : Config → Text) : Type 0 where
  pub assigned :
      (key : Key) (value : Text) (cfg : Config)
      → p (assign key value cfg) ≡ (if mine key then value else p cfg)
  pub from_file : (cfg : Config) (path : Text) → p (record cfg { config_file = path }) ≡ p cfg
  pub helped : (cfg : Config) → p (record cfg { show_help = true }) ≡ p cfg
  pub versioned : (cfg : Config) → p (record cfg { show_version = true }) ≡ p cfg
  pub filled : (cfg : Config) → p (record cfg { window_fullscreen = true }) ≡ p cfg

module _ (mine : Key → Bool) (p : Config → Text) (field : IsField mine p) where
  parse_lines-field :
      (lines : List Text) (cfg : Config)
      → p (parse_lines lines cfg) ≡ last_given mine (p cfg) (file_settings lines)
  unfolding parse_lines last_given file_settings
  parse_lines-field [] cfg = refl
  parse_lines-field (line ∷ lines) cfg = elim (Option-cases (line_setting line)) [
    | inl e ↦ rw e (parse_lines-field lines cfg)
    | inr ((key, value), e) ↦ rw e (
        parse_lines-field lines (assign key value cfg)
        ∙ ap (λ t. last_given mine t (file_settings lines)) (field.assigned key value cfg))
  ]

  assign_env-field :
      (getenv : Text → Option Text) (names : List (Key × Text)) (cfg : Config)
      → p (assign_env getenv names cfg) ≡ last_given mine (p cfg) (env_settings getenv names)
  unfolding assign_env last_given env_settings
  assign_env-field getenv [] cfg = refl
  assign_env-field getenv ((key, name) ∷ names) cfg = elim (Option-cases (getenv name)) [
    | inl e ↦ rw e (assign_env-field getenv names cfg)
    | inr (value, e) ↦ rw e (
        assign_env-field getenv names (assign key value cfg)
        ∙ ap (λ t. last_given mine t (env_settings getenv names)) (field.assigned key value cfg))
  ]

  obey-field :
      (r : Request) (after : Option Text) (cfg : Config)
      → p (obey r after cfg).0 ≡ last_given mine (p cfg) (requested r after)
  unfolding obey last_given
  obey-field Request.help after cfg = field.helped cfg
  obey-field Request.version after cfg = field.versioned cfg
  obey-field Request.fullscreen_on after cfg = field.filled cfg
  obey-field (Request.next key) none cfg = refl
  obey-field (Request.next key) (some value) cfg = field.assigned key value cfg
  obey-field (Request.inline key value) after cfg = field.assigned key value cfg
  obey-field Request.ignored after cfg = refl

  obey-takes :
      (r : Request) (after : Option Text) (cfg : Config) → (obey r after cfg).1 ≡ takes r after
  unfolding obey
  obey-takes Request.help after cfg = refl
  obey-takes Request.version after cfg = refl
  obey-takes Request.fullscreen_on after cfg = refl
  obey-takes (Request.next key) after cfg = refl
  obey-takes (Request.inline key value) after cfg = refl
  obey-takes Request.ignored after cfg = refl

  parse_cli-field :
      (used : Bool) (args : List (Option Text)) (cfg : Config)
      → p (parse_cli used args cfg) ≡ last_given mine (p cfg) (cli_settings used args)
  unfolding parse_cli last_given cli_settings
  parse_cli-field used [] cfg = refl
  parse_cli-field true (a ∷ rest) cfg = parse_cli-field false rest cfg
  parse_cli-field false (none ∷ rest) cfg = parse_cli-field false rest cfg
  parse_cli-field false (some arg ∷ rest) cfg =
      let r = request_of arg in
      let after = following rest in
      let more = cli_settings (takes r after) rest in
      parse_cli-field (obey r after cfg).1 rest (obey r after cfg).0
      ∙ ap (λ b. last_given mine (p (obey r after cfg).0) (cli_settings b rest))
          (obey-takes r after cfg)
      ∙ ap (λ t. last_given mine t more) (obey-field r after cfg)
      ∙ sym (last_given-append mine (p cfg) (requested r after) more)

  load_file-field :
      (files : Text → Option (List Text)) (path : Text) (cfg : Config)
      → p (load_file files path cfg)
        ≡ last_given mine (p cfg) (file_settings (lines_or_none (files path)))
  unfolding load_file last_given file_settings
  load_file-field files path cfg = elim (Option-cases (files path)) [
    | inl e ↦ rw e refl
    | inr (lines, e) ↦
        rw e (field.from_file (parse_lines lines cfg) path ∙ parse_lines-field lines cfg)
  ]

  load_env_file-field :
      (files : Text → Option (List Text)) (path : Option Text) (cfg : Config)
      → p (load_env_file files path cfg)
        ≡ last_given mine (p cfg) (file_settings (env_lines files path))
  unfolding load_env_file last_given file_settings
  load_env_file-field files none cfg = refl
  load_env_file-field files (some path) cfg = load_file-field files path cfg

  pub provide-field :
      (files : Text → Option (List Text)) (getenv : Text → Option Text) (args : List (Option Text))
      → p (provide files getenv args)
        ≡ last_given mine (p default_config) (
            file_settings (chosen_lines files getenv args)
            ++ (env_settings getenv env_names ++ cli_settings false args))
  unfolding provide parse_env chosen_lines
  provide-field files getenv args =
      let path = cli_config_path false [] args in
      let from_file =
        if is_empty path
        then load_env_file files (getenv (codes "TTP_CONFIG")) default_config
        else load_file files path default_config in
      let lines = chosen_lines files getenv args in
      let env = env_settings getenv env_names in
      let cli = cli_settings false args in
      let loaded : p from_file ≡ last_given mine (p default_config) (file_settings lines) =
        elim (Bool-cases (is_empty path)) [
          | inl e ↦ rw e (load_env_file-field files (getenv (codes "TTP_CONFIG")) default_config)
          | inr e ↦ rw e (load_file-field files path default_config)
        ] in
      parse_cli-field false args (assign_env getenv env_names from_file)
      ∙ ap (λ t. last_given mine t cli) (assign_env-field getenv env_names from_file)
      ∙ ap (λ t. last_given mine (last_given mine t env) cli) loaded
      ∙ ap (λ t. last_given mine t cli)
          (sym (last_given-append mine (p default_config) (file_settings lines) env))
      ∙ sym (last_given-append mine (p default_config) (file_settings lines ++ env) cli)
      ∙ ap (last_given mine (p default_config)) (append_assoc (file_settings lines) env cli)
