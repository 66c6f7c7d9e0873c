-- ===== src/Domain/Label.antt =====
-- src/domain/Types.h: the text of an interval, such as "15m". A text is the list of its codes.
pub mod RoundTrip
use Prim.Native.Char.{code}
use Prim.Native.String.{String}
use trading_chart_viewer.Common.{
  ℕ, zero, suc, ◌+◌, ◌-◌, ◌*◌, ◌/◌, ◌%◌, Bool, true, false, ◌&&◌, ◌||◌, List, [], ◌∷◌, ◌++◌, map,
  Option, none, some, ltb, leb, ◌==◌, if◌then◌else◌,
}
use trading_chart_viewer.Common.Int.{ℤ, pos, negsuc, pos_part, ◌*ℤ◌, to_int64}
use trading_chart_viewer.Domain.{valid}

abbrev pub Text : Type 0
Text = List ℕ

abbrev pub codes : String → Text
codes String.[] = []
codes (String.◌∷◌ c s) = code c ∷ codes s

-- `std::isspace`, `std::isdigit` and `std::tolower` of the C locale.
unfoldable pub is_space : ℕ → Bool
is_space c = c == 32 || leb 9 c && leb c 13

unfoldable pub is_digit : ℕ → Bool
is_digit c = leb b'0' c && leb c b'9'

unfoldable pub to_lower : ℕ → ℕ
to_lower c = if leb b'A' c && leb c b'Z' then c + 32 else c

-- `std::to_string` of a number that is not negative; a number has at most as many digits as
-- its value plus one, which is the fuel.
unfoldable pub print_from : ℕ → ℕ → Text → Text
print_from zero n rest = rest
print_from (suc fuel) n rest =
    let more = print_from fuel (n / 10) ((b'0' + n % 10) ∷ rest) in
    if ltb n 10 then (b'0' + n) ∷ rest else more

unfoldable pub to_string : ℕ → Text
unfolding print_from
to_string n = print_from (suc n) n []

-- The loops over white space and over digits.
unfoldable pub skip_spaces : Text → Text
skip_spaces [] = []
skip_spaces (c ∷ r) = let rest = skip_spaces r in if is_space c then rest else c ∷ r

unfoldable pub digit_span : Text → Text
digit_span [] = []
digit_span (c ∷ r) = let rest = digit_span r in if is_digit c then c ∷ rest else []

unfoldable pub after_digits : Text → Text
after_digits [] = []
after_digits (c ∷ r) = let rest = after_digits r in if is_digit c then rest else c ∷ r

unfoldable pub decimal : ℕ → Text → ℕ
decimal v [] = v
decimal v (c ∷ r) = decimal (v * 10 + (c - b'0')) r

abbrev pub long_long_bound : ℕ
long_long_bound = 9_223_372_036_854_775_808

-- `std::stoll` of a text of digits, which throws out of range.
unfoldable pub stoll : Text → Option ℕ
unfolding decimal
stoll ds = let v = decimal 0 ds in if ltb v long_long_bound then some v else none

unfoldable pub label_from : ℕ → Text
unfolding to_string
label_from ms =
    if (ms % 86_400_000) == 0
    then to_string (ms / 86_400_000) ++ b'd' ∷ []
    else if (ms % 3_600_000) == 0
    then to_string (ms / 3_600_000) ++ b'h' ∷ []
    else if (ms % 60_000) == 0
    then to_string (ms / 60_000) ++ b'm' ∷ []
    else if (ms % 1_000) == 0
    then to_string (ms / 1_000) ++ b's' ∷ []
    else to_string ms ++ b'm' ∷ b's' ∷ []

-- An interval that is not valid has the empty label.
unfoldable pub interval_label : ℤ → Text
unfolding label_from valid
interval_label ms = if valid ms then label_from (pos_part ms) else []

-- The factor that the rest of the text, behind the digits, stands for.
unfoldable pub multiplier : Text → ℕ
unfolding to_lower
multiplier [] = 1
multiplier (c ∷ r) =
    let suffix = to_lower c in
    if suffix == b's'
    then 1_000
    else if suffix == b'm'
    then 60_000
    else if suffix == b'h'
    then 3_600_000
    else if suffix == b'd'
    then 86_400_000
    else 1

-- `Interval{}`, of no milliseconds, is the result for a text that is refused. C++ gives no meaning to
-- a product that a `long long` cannot hold: its low 64 bits are kept here, as machines do.
unfoldable pub scaled : Option ℕ → Text → ℤ
unfolding multiplier to_int64
scaled none rest = pos 0
scaled (some value) rest =
    if value == 0 then pos 0 else to_int64 (pos value *ℤ pos (multiplier rest))

unfoldable pub interval_from_digits : Text → Text → ℤ
unfolding scaled stoll skip_spaces
interval_from_digits [] rest = pos 0
interval_from_digits (c ∷ ds) rest = scaled (stoll (c ∷ ds)) (skip_spaces rest)

unfoldable pub interval_from_label : Text → ℤ
unfolding interval_from_digits digit_span after_digits skip_spaces is_space is_digit
interval_from_label label =
    let rest = skip_spaces label in interval_from_digits (digit_span rest) (after_digits rest)
