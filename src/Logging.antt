-- ===== src/Logging.antt =====
-- src/logging/Log.cpp: the filter and the lines of the log. The clock and `vsnprintf` are outside:
-- the time's text and the formatted text are arguments.
pub mod Tests
use trading_chart_viewer.Common.{
  ℕ, zero, suc, ap, ◌+◌, ◌≤◌, ◌≡◌, refl, Bool, true, false, Option, none, some, List, [], ◌∷◌, ◌++◌,
  length, take, ltb, leb, arith, if◌then◌else◌, Bool-cases, inl, inr, length-take, length-append,
}
use trading_chart_viewer.Domain.Label.{Text, codes}
use trading_chart_viewer.Config.{LogLevel, log_level_severity, log_level_at_least}
use trading_chart_viewer.Config.Levels.{level_to_string}

pub data LogCategory : Type 0 where
  net data_flow cache snapshot render ui db : LogCategory

unfoldable pub category_to_string : LogCategory → Text
category_to_string LogCategory.net = codes "NET"
category_to_string LogCategory.data_flow = codes "DATA"
category_to_string LogCategory.cache = codes "CACHE"
category_to_string LogCategory.snapshot = codes "SNAPSHOT"
category_to_string LogCategory.render = codes "RENDER"
category_to_string LogCategory.ui = codes "UI"
category_to_string LogCategory.db = codes "DB"

-- The level that is set, and what was written to `stderr`.
pub record Log : Type 0 where
  pub current_level : LogLevel
  pub written : List Text

unfoldable pub set_log_level : LogLevel → Log → Log
set_log_level level log = record log { current_level = level }

-- The text in the buffer of 1,024 bytes; `none` is a negative result of `vsnprintf`.
unfoldable pub buffer_of : Option Text → Text
buffer_of none = codes "<format-error>"
buffer_of (some text) = if leb 1_024 (length text) then take 1_020 text ++ codes "..." else text

unfoldable pub line_of : Text → LogLevel → LogCategory → Option Text → Text
line_of time level category formatted =
    time
    ++ b' ' ∷ level_to_string level
    ++ b' ' ∷ category_to_string category
    ++ b' ' ∷ buffer_of formatted
    ++ 10 ∷ []

unfoldable pub vlog : Text → LogLevel → LogCategory → Option Text → Log → Log
vlog time level category formatted log =
    if ltb (log_level_severity level) (log_level_severity log.current_level)
    then log
    else record log { written = log.written ++ line_of time level category formatted ∷ [] }

take-append_take :
    (n : ℕ) (xs ys : Text) → n ≤ length (take n xs) → take n (take n xs ++ ys) ≡ take n xs
take-append_take zero xs ys h = refl
take-append_take (suc n) [] ys h = absurd (omega (arith, h))
take-append_take (suc n) (x ∷ xs) ys h = ap (◌∷◌ x) (take-append_take n xs ys (omega (arith, h)))

-- A formatted message always fits the buffer with its NUL, and its first 1,020 characters are those of the formatted text.
pub buffer_of_bound :
    (text : Text)
    → (length (buffer_of (some text)) ≤ 1_023)
      × (take 1_020 (buffer_of (some text)) ≡ take 1_020 text)
unfolding buffer_of
buffer_of_bound text = elim (Bool-cases (leb 1_024 (length text))) [
  | inl long ↦
      let fits : 1_020 ≤ length (take 1_020 text) = rw (length-take 1_020 text) (ground arith) in
      rw long (
        rw (length-append (take 1_020 text) (codes "..."), length-take 1_020 text) (omega arith),
        take-append_take 1_020 text (codes "...") fits,
      )
  | inr short ↦ rw short (ground arith, refl)
]
