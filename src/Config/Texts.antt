-- ===== src/Config/Texts.antt =====
-- src/config/ConfigProvider.cpp: the helpers on texts.
use trading_chart_viewer.Common.{
  ℕ, Bool, true, false, ◌&&◌, ◌||◌, Option, none, some, [], ◌∷◌, map, reverse, leb, ltb, ◌==◌,
  if◌then◌else◌,
}
use trading_chart_viewer.Common.Int.{ℤ, pos, sub_ℕ}
use trading_chart_viewer.Domain.Label.{
  Text, codes, to_lower, skip_spaces, digit_span, after_digits, decimal,
}

-- `==` of two `std::string`s.
unfoldable pub same_text : Text → Text → Bool
same_text [] [] = true
same_text [] (d ∷ s) = false
same_text (c ∷ r) [] = false
same_text (c ∷ r) (d ∷ s) = let rest = same_text r s in c == d && rest

-- `text.rfind(prefix, 0) == 0`.
unfoldable pub starts_with : Text → Text → Bool
starts_with [] s = true
starts_with (c ∷ r) [] = false
starts_with (c ∷ r) (d ∷ s) = let rest = starts_with r s in c == d && rest

unfoldable pub trim : Text → Text
trim s = reverse (skip_spaces (reverse (skip_spaces s)))

unfoldable pub lowercase : Text → Text
lowercase s = map to_lower s

unfoldable pub parse_bool : Text → Option Bool
unfolding same_text lowercase
parse_bool value =
    let lower = lowercase value in
    if same_text lower (codes "1")
      || (same_text lower (codes "true")
          || (same_text lower (codes "yes") || same_text lower (codes "on")))
    then some true
    else if same_text lower (codes "0")
        || (same_text lower (codes "false")
            || (same_text lower (codes "no") || same_text lower (codes "off")))
    then some false
    else none

abbrev pub int_bound : ℕ
int_bound = 2_147_483_648

-- `std::stoi` behind the sign, on digits and what follows them: it throws where there is no
-- digit or the value is no `int`, and the caller refuses a text that is not used up.
unfoldable pub int_of_digits : Bool → Text → Text → Option ℤ
int_of_digits negative [] rest = none
int_of_digits negative (c ∷ ds) (d ∷ rest) = none
int_of_digits true (c ∷ ds) [] =
    let v = decimal 0 (c ∷ ds) in if leb v int_bound then some (sub_ℕ 0 v) else none
int_of_digits false (c ∷ ds) [] =
    let v = decimal 0 (c ∷ ds) in if ltb v int_bound then some (pos v) else none

unfoldable pub parse_signed : Text → Option ℤ
parse_signed [] = none
parse_signed (c ∷ r) =
    if c == b'-'
    then int_of_digits true (digit_span r) (after_digits r)
    else if c == b'+'
    then int_of_digits false (digit_span r) (after_digits r)
    else int_of_digits false (digit_span (c ∷ r)) (after_digits (c ∷ r))

unfoldable pub parse_int : Text → Option ℤ
parse_int value = parse_signed (skip_spaces value)

abbrev cons_key : ℕ → Option (Text × Text) → Option (Text × Text)
cons_key c none = none
cons_key c (some (key, value)) = some (c ∷ key, value)

-- What stands before and behind the first `=`.
unfoldable pub split_setting : Text → Option (Text × Text)
split_setting [] = none
split_setting (c ∷ r) =
    let rest = split_setting r in if c == b'=' then some ([], r) else cons_key c rest
