-- ===== src/Domain/Label/RoundTrip.antt =====
-- Reading the label that was printed for an interval.
use trading_chart_viewer.Common.{
  ℕ, zero, suc, ◌+◌, ◌*◌, ◌/◌, ◌%◌, ◌<◌, ◌≡◌, ◌≢◌, refl, ap, ◌∙◌, true, false, [], ◌∷◌, ◌++◌, some,
  arith, ltb, All, Bool-cases, inl, inr,
}
use trading_chart_viewer.Common.Int.{pos, pos_times, to_int64_same}
use trading_chart_viewer.Domain.Label.{
  Text, is_space, is_digit, print_from, to_string, skip_spaces, digit_span, after_digits, decimal,
  stoll, long_long_bound, multiplier, scaled, interval_from_digits, interval_from_label,
  interval_label, label_from,
}

abbrev Digits : Text → Type 0
Digits = All (λ c. is_digit c ≡ true)

digit_code : (n : ℕ) → n < 10 → is_digit (b'0' + n) ≡ true
unfolding is_digit
digit_code n h = ground arith

print_from-Digits : (fuel n : ℕ) (rest : Text) → Digits rest → Digits (print_from fuel n rest)
unfolding print_from
print_from-Digits zero n rest h = h
print_from-Digits (suc fuel) n rest h = ground (
  arith,
  digit_code n,
  digit_code (n % 10),
  print_from-Digits fuel (n / 10) ((b'0' + n % 10) ∷ rest),
)

decimal-print_from :
    (fuel n : ℕ) (rest : Text) → n < fuel → decimal 0 (print_from fuel n rest) ≡ decimal n rest
unfolding print_from decimal
decimal-print_from zero n rest h = elim h [ ]
decimal-print_from (suc fuel) n rest h = elim (Bool-cases (ltb n 10)) [
  | inl small ↦ rw small (ap (λ (v : ℕ). decimal v rest) (omega arith))
  | inr big ↦ rw big (
      decimal-print_from fuel (n / 10) ((b'0' + n % 10) ∷ rest) (ground arith)
      ∙ ap (λ (v : ℕ). decimal v rest) (omega arith))
]

decimal-to_string : (n : ℕ) → decimal 0 (to_string n) ≡ n
unfolding to_string decimal
decimal-to_string n = decimal-print_from (suc n) n [] (omega arith)

to_string-Digits : (n : ℕ) → Digits (to_string n)
unfolding to_string
to_string-Digits n = print_from-Digits (suc n) n [] tt

print_from_nonempty : (fuel n : ℕ) (c : ℕ) (r : Text) → print_from fuel n (c ∷ r) ≢ []
unfolding print_from
print_from_nonempty zero n c r = λ e. cc
print_from_nonempty (suc fuel) n c r =
    ground (arith, print_from_nonempty fuel (n / 10) (b'0' + n % 10) (c ∷ r))

to_string_nonempty : (n : ℕ) → to_string n ≢ []
unfolding to_string print_from
to_string_nonempty n = ground (arith, print_from_nonempty n (n / 10) (b'0' + n % 10) [])

-- A suffix that follows the digits and is no digit itself.
abbrev Stops : Text → Type 0
Stops [] = Unit
Stops (c ∷ r) = (is_digit c ≡ false) × (is_space c ≡ false)

digit_span-append : (ds s : Text) → Digits ds → Stops s → digit_span (ds ++ s) ≡ ds
unfolding digit_span
digit_span-append [] [] h stops = refl
digit_span-append [] (c ∷ r) h stops = rw stops.0
digit_span-append (c ∷ ds) s h stops = rw (h.0, digit_span-append ds s h.1 stops)

after_digits-append : (ds s : Text) → Digits ds → Stops s → after_digits (ds ++ s) ≡ s
unfolding after_digits
after_digits-append [] [] h stops = refl
after_digits-append [] (c ∷ r) h stops = rw stops.0
after_digits-append (c ∷ ds) s h stops = rw (h.0, after_digits-append ds s h.1 stops)

skip_spaces-Stops : (s : Text) → Stops s → skip_spaces s ≡ s
unfolding skip_spaces
skip_spaces-Stops [] stops = refl
skip_spaces-Stops (c ∷ r) stops = rw stops.1

digit-not_space : (c : ℕ) → is_digit c ≡ true → is_space c ≡ false
unfolding is_digit is_space
digit-not_space c h = ground arith

skip_spaces-Digits : (ds s : Text) → Digits ds → ds ≢ [] → skip_spaces (ds ++ s) ≡ ds ++ s
unfolding skip_spaces
skip_spaces-Digits [] s h ne = absurd (ne refl)
skip_spaces-Digits (c ∷ ds) s h ne = rw (digit-not_space c h.0)

interval_from_digits-cons :
    (ds s : Text) → ds ≢ [] → interval_from_digits ds s ≡ scaled (stoll ds) (skip_spaces s)
unfolding interval_from_digits
interval_from_digits-cons [] s ne = absurd (ne refl)
interval_from_digits-cons (c ∷ ds) s ne = refl

stoll-to_string : (n : ℕ) → n < long_long_bound → stoll (to_string n) ≡ some n
unfolding stoll
stoll-to_string n h = rw decimal-to_string (ground arith)

-- A printed number before a suffix is read as the number, scaled by the suffix.
pub interval_from_label-print :
    (n : ℕ) (s : Text)
    → n < long_long_bound
    → Stops s
    → interval_from_label (to_string n ++ s) ≡ scaled (some n) s
unfolding interval_from_label
interval_from_label-print n s h stops =
    let ds = to_string n in
    let digits = to_string-Digits n in
    rw (
      skip_spaces-Digits ds s digits (to_string_nonempty n),
      digit_span-append ds s digits stops,
      after_digits-append ds s digits stops,
      interval_from_digits-cons ds s (to_string_nonempty n),
      stoll-to_string n h,
      skip_spaces-Stops s stops,
    )

-- A length in whole units `u`, printed as a number of them with a suffix that stands for `v`.
read_units :
    (ms u v : ℕ) (s : Text)
    → 0 < ms
    → ms < long_long_bound
    → 0 < u
    → ms % u ≡ 0
    → multiplier s ≡ v
    → ms / u * v < long_long_bound
    → Stops s
    → interval_from_label (to_string (ms / u) ++ s) ≡ pos (ms / u * v)
unfolding scaled
read_units ms u v s p h pu whole e fits stops =
    interval_from_label-print (ms / u) s (grind arith) stops
    ∙ rw (e, pos_times, to_int64_same (ms / u * v) fits) (ground (arith, quotient_pos))
  where
    quotient_pos : 0 < ms / u
    quotient_pos = grind arith

-- A positive length of whole seconds that fits a `long long` comes back from its label.
pub interval_from_label-interval_label :
    (ms : ℕ)
    → 0 < ms
    → ms < long_long_bound
    → ms % 1_000 ≡ 0
    → interval_from_label (interval_label (pos ms)) ≡ pos ms
unfolding interval_label label_from multiplier is_digit is_space
interval_from_label-interval_label ms p h whole = ground (
  arith,
  read_units ms 86_400_000 86_400_000 (b'd' ∷ []) p h,
  read_units ms 3_600_000 3_600_000 (b'h' ∷ []) p h,
  read_units ms 60_000 60_000 (b'm' ∷ []) p h,
  read_units ms 1_000 1_000 (b's' ∷ []) p h,
)

-- A length that is no whole number of seconds, and that fits a `long long` when it is 60,000 times
-- as long, comes back from its label as long as that: its suffix "ms" is read as minutes.
pub interval_from_label-milliseconds :
    (ms : ℕ)
    → ms * 60_000 < long_long_bound
    → ms % 1_000 ≢ 0
    → interval_from_label (interval_label (pos ms)) ≡ pos (ms * 60_000)
unfolding interval_label label_from multiplier is_digit is_space scaled
interval_from_label-milliseconds ms h part = ground (
  arith,
  interval_from_label-print ms (b'm' ∷ b's' ∷ []),
  pos_times ms 60_000,
  to_int64_same (ms * 60_000),
)
