-- ===== src/Config/Levels.antt =====
-- The levels of the log as texts: src/config/ConfigProvider.cpp and src/logging/Log.cpp.
use trading_chart_viewer.Common.{◌≡◌, refl, ◌||◌, Option, arith, none, some, if◌then◌else◌}
use trading_chart_viewer.Domain.Label.{Text, codes, to_lower}
use trading_chart_viewer.Config.{LogLevel}
use trading_chart_viewer.Config.Texts.{same_text, lowercase}

unfoldable pub parse_log_level : Text → LogLevel
parse_log_level value =
    let lower = lowercase value in
    if same_text lower (codes "trace")
    then LogLevel.trace
    else if same_text lower (codes "debug")
    then LogLevel.debug
    else if same_text lower (codes "info")
    then LogLevel.info
    else if same_text lower (codes "warn") || same_text lower (codes "warning")
    then LogLevel.warn
    else if same_text lower (codes "error")
    then LogLevel.error
    else LogLevel.info

unfoldable pub log_level_to_string : LogLevel → Text
log_level_to_string LogLevel.trace = codes "trace"
log_level_to_string LogLevel.debug = codes "debug"
log_level_to_string LogLevel.info = codes "info"
log_level_to_string LogLevel.warn = codes "warn"
log_level_to_string LogLevel.error = codes "error"

-- `Log::try_parse_log_level`; `none` is the result false.
unfoldable pub try_parse_log_level : Text → Option LogLevel
try_parse_log_level value =
    let normalized = lowercase value in
    if same_text normalized (codes "trace")
    then some LogLevel.trace
    else if same_text normalized (codes "debug")
    then some LogLevel.debug
    else if same_text normalized (codes "info")
    then some LogLevel.info
    else if same_text normalized (codes "warn") || same_text normalized (codes "warning")
    then some LogLevel.warn
    else if same_text normalized (codes "error")
    then some LogLevel.error
    else none

-- `Log::level_to_string`.
unfoldable pub level_to_string : LogLevel → Text
level_to_string LogLevel.error = codes "ERROR"
level_to_string LogLevel.warn = codes "WARN"
level_to_string LogLevel.info = codes "INFO"
level_to_string LogLevel.debug = codes "DEBUG"
level_to_string LogLevel.trace = codes "TRACE"

abbrev pub level_or : LogLevel → Option LogLevel → LogLevel
level_or l none = l
level_or l (some m) = m

parse_log_level-lenient :
    (value : Text) → parse_log_level value ≡ level_or LogLevel.info (try_parse_log_level value)
unfolding parse_log_level try_parse_log_level
parse_log_level-lenient value = ground arith

-- The two parsers agree, the lenient one taking `info` for an unknown name, and each level comes
-- back through both from the names that the settings and the log print.
pub parse_log_level-try_parse :
    (value : Text) (l : LogLevel)
    → (parse_log_level value ≡ level_or LogLevel.info (try_parse_log_level value))
      × (try_parse_log_level (log_level_to_string l) ≡ some l)
      × (try_parse_log_level (level_to_string l) ≡ some l)
      × (parse_log_level (log_level_to_string l) ≡ l)
unfolding parse_log_level try_parse_log_level log_level_to_string level_to_string lowercase
    same_text to_lower
parse_log_level-try_parse value l =
    (parse_log_level-lenient value, by_name l, by_print l, by_setting l)
  where
    by_name : (m : LogLevel) → try_parse_log_level (log_level_to_string m) ≡ some m
    by_name LogLevel.trace = refl
    by_name LogLevel.debug = refl
    by_name LogLevel.info = refl
    by_name LogLevel.warn = refl
    by_name LogLevel.error = refl

    by_print : (m : LogLevel) → try_parse_log_level (level_to_string m) ≡ some m
    by_print LogLevel.trace = refl
    by_print LogLevel.debug = refl
    by_print LogLevel.info = refl
    by_print LogLevel.warn = refl
    by_print LogLevel.error = refl

    by_setting : (m : LogLevel) → parse_log_level (log_level_to_string m) ≡ m
    by_setting LogLevel.trace = refl
    by_setting LogLevel.debug = refl
    by_setting LogLevel.info = refl
    by_setting LogLevel.warn = refl
    by_setting LogLevel.error = refl
