-- ===== src/Sync/Limits.antt =====
-- The ranges that the orchestrator asks the market for.
use trading_chart_viewer.Common.{
  ℕ, zero, suc, ◌+◌, ◌-◌, ◌*◌, ◌/◌, ◌<◌, ◌≤◌, ◌≡◌, refl, Bool, true, false, ◌&&◌, arith, ◌==◌,
  if◌then◌else◌, Bool-cases, inl, inr, max,
}
use trading_chart_viewer.Common.Int.{
  ℤ, pos, ◌+ℤ◌, ◌-ℤ◌, ◌*ℤ◌, ◌/ℤ◌, ◌≤ℤ◌, ◌<ℤ◌, ◌==ℤ◌, ltb_ℤ, leb_ℤ, int_laws, ltb_ℤ→ge, pos_times,
  min_ℤ,
}
use trading_chart_viewer.Domain.{RepoMetadata, TimestampMs}
use trading_chart_viewer.Sync.{SyncConfig}
use trading_chart_viewer.Sync.Repair.{gap_limit, rem_ℤ}
use trading_chart_viewer.Sync.Backfill.{
  request_range, request_end, span_of, open_window, is_exhausted,
}

div_bounds : (a b : ℕ) → 0 < b → (a / b * b ≤ a) × (a < a / b * b + b)
div_bounds a b h = (omega arith, omega arith)

-- The division, rounded up.
unfoldable rounded_up : ℕ → ℕ → ℕ
rounded_up a b = if a / b * b == a then a / b else suc (a / b)

minus_whole : (a c : ℕ) → c ≤ a → (pos a -ℤ pos c ==ℤ pos 0) ≡ (c == a)
unfolding ◌-ℤ◌
minus_whole a c h = ground arith

gap_limit-pos :
    (a b : ℕ)
    → 0 < b
    → 0 < a
    → gap_limit (pos a) (pos b) ≡ (if rounded_up a b == 0 then 1 else rounded_up a b)
unfolding gap_limit rem_ℤ ◌/ℤ◌ rounded_up
gap_limit-pos a b h g = rw (pos_times (a / b) b, minus_whole a (a / b * b) (omega arith)) refl

exact_bounds : (q a b : ℕ) → q * b ≡ a → 0 < a → 0 < b → (0 < q) × (a ≤ q * b) × ((q - 1) * b < a)
exact_bounds zero a b e g h = absurd (omega arith)
exact_bounds (suc q) a b e g h = (omega arith, omega arith, ground arith)

inexact_bounds :
    (q a b : ℕ)
    → (q * b == a) ≡ false
    → q * b ≤ a
    → a < q * b + b
    → (0 < suc q) × (a ≤ suc q * b) × ((suc q - 1) * b < a)
inexact_bounds q a b e l h = (omega arith, omega arith, ground arith)

rounded_up_bounds :
    (a b : ℕ)
    → 0 < b
    → 0 < a
    → (0 < rounded_up a b) × (a ≤ rounded_up a b * b) × ((rounded_up a b - 1) * b < a)
unfolding rounded_up
rounded_up_bounds a b h g = elim (Bool-cases (a / b * b == a)) [
  | inl e ↦ rw e (exact_bounds (a / b) a b (ground (arith, e)) g h)
  | inr e ↦ rw e (inexact_bounds (a / b) a b e (div_bounds a b h).0 (div_bounds a b h).1)
]

positive-test : (n : ℕ) → 0 < n → (if n == 0 then 1 else n) ≡ n
positive-test n h = ground arith

-- For a gap of a positive length and a positive interval, the number of candles that the repair
-- asks for is the least whose intervals cover the gap, and is not zero.
pub gap_limit-covers :
    (a b : ℕ)
    → 0 < a
    → 0 < b
    → let n = gap_limit (pos a) (pos b) in (0 < n) × (a ≤ n * b) × ((n - 1) * b < a)
gap_limit-covers a b g h =
    let bounds = rounded_up_bounds a b h g in
    rw (gap_limit-pos a b h g, positive-test (rounded_up a b) bounds.0) bounds

min_bounds : (a b : ℤ) → (min_ℤ a b ≤ℤ a) × (min_ℤ a b ≤ℤ b)
unfolding min_ℤ
min_bounds a b = (ground arith, ground arith)

min_least : (a b c : ℤ) → c ≤ℤ a → c ≤ℤ b → c ≤ℤ min_ℤ a b
unfolding min_ℤ
min_least a b c h g = ground arith

leb_of : (a b : ℤ) → a ≤ℤ b → leb_ℤ a b ≡ true
leb_of a b h = ground arith

capped_bounds :
    (seed_end next : ℤ) (i span : ℕ)
    → 0 < i
    → i ≤ span
    → (ltb_ℤ (pos 0) seed_end && ltb_ℤ seed_end next) ≡ false
    → let end = next +ℤ pos span -ℤ pos 1 in
      let capped = seed_end +ℤ pos i -ℤ pos 1 in
      let r = if ltb_ℤ (pos 0) seed_end && leb_ℤ next capped then min_ℤ end capped else end in
      (next +ℤ pos i -ℤ pos 1 ≤ℤ r) × (r ≤ℤ end) × (pos 0 <ℤ seed_end → r ≤ℤ capped)
capped_bounds seed_end next i span h g e =
    let end = next +ℤ pos span -ℤ pos 1 in
    let capped = seed_end +ℤ pos i -ℤ pos 1 in
    elim (Bool-cases (ltb_ℤ (pos 0) seed_end)) [
      | inl on ↦
          let inside : next ≤ℤ seed_end = ltb_ℤ→ge seed_end next (rw on at e) in
          let ahead : leb_ℤ next capped ≡ true = leb_of next capped (omega (int_laws, inside, h)) in
          rw (on, ahead)
            (
              min_least end capped _ (omega (int_laws, h, g)) (omega (int_laws, inside)),
              (min_bounds end capped).0,
              λ p. (min_bounds end capped).1,
            )
      | inr off ↦ rw off (omega (int_laws, h, g), omega arith, λ p. absurd (ground (arith, off)))
    ]

end_bounds :
    (empty_repo : Bool) (seed_end next : ℤ) (i span : ℕ)
    → 0 < i
    → i ≤ span
    → (empty_repo && (ltb_ℤ (pos 0) seed_end && ltb_ℤ seed_end next)) ≡ false
    → let end = next +ℤ pos span -ℤ pos 1 in
      let capped = seed_end +ℤ pos i -ℤ pos 1 in
      let r =
        if empty_repo && ltb_ℤ (pos 0) seed_end && leb_ℤ next capped
        then min_ℤ end capped
        else end in
      (next +ℤ pos i -ℤ pos 1 ≤ℤ r)
      × (r ≤ℤ end)
      × (empty_repo ≡ true → pos 0 <ℤ seed_end → r ≤ℤ capped)
end_bounds true seed_end next i span h g e =
    let bounds = capped_bounds seed_end next i span h g e in (bounds.0, bounds.1, λ r. bounds.2)
end_bounds false seed_end next i span h g e = (omega (int_laws, h, g), omega arith, λ r. absurd cc)

one_interval : (i n : ℕ) → 0 < n → i ≤ i * n
one_interval i zero h = absurd (omega arith)
one_interval i (suc n) h = omega arith

whole_span :
    (i n : ℕ)
    → 0 < i
    → 0 < n
    → (if leb_ℤ (pos i *ℤ pos n) (pos 0) then pos i else pos i *ℤ pos n) ≡ pos (i * n)
whole_span i n h g =
    let long : i ≤ i * n = one_interval i n g in
    let test : leb_ℤ (pos (i * n)) (pos 0) ≡ false = ground arith in rw (pos_times i n, test) refl

-- For a positive interval, whatever the metadata and the time are: unless the seed window is
-- exhausted, the range that a round of the backfill asks for starts at the next candle's time,
-- reaches over at least one interval and over at most as many as the batch has candles, and, where
-- the repository was empty and the seed window has an end, not past the interval that opens there.
pub request_range-bounds :
    (i : ℕ) (cfg : SyncConfig) (meta : RepoMetadata) (now next : TimestampMs)
    → 0 < i
    → let w = open_window (pos i) cfg meta now in
      let range = request_range w next in
      is_exhausted w next ≡ false
      → (range.start ≡ next)
        × (next +ℤ pos i -ℤ pos 1 ≤ℤ range.end)
        × (range.end ≤ℤ next +ℤ pos (i * max cfg.rest_batch 1) -ℤ pos 1)
        × (w.repo_empty ≡ true → pos 0 <ℤ w.seed_end → range.end ≤ℤ w.seed_end +ℤ pos i -ℤ pos 1)
unfolding request_range request_end span_of open_window is_exhausted
request_range-bounds i cfg meta now next h e =
    let n = max cfg.rest_batch 1 in
    let some : 0 < n = omega arith in
    let w = open_window (pos i) cfg meta now in
    let bounds = end_bounds w.repo_empty w.seed_end next i (i * n) h (one_interval i n some) e in
    rw (whole_span i n h some) (refl, bounds.0, bounds.1, bounds.2)
