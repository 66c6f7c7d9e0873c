-- ===== src/Indicators/Incremental.antt =====
-- Updating the average by one candle against computing it anew.
use trading_chart_viewer.Common.{
  ℕ, zero, suc, ◌+◌, ◌-◌, ◌≤◌, ◌<◌, ◌≡◌, refl, ap, sym, ◌∙◌, true, false, ◌||◌, not, List, [], ◌∷◌,
  ◌++◌, length, drop, replicate, ltb, ◌==◌, arith, Bool-cases, inl, inr, length-append, back-append,
}
use trading_chart_viewer.Common.Int.{pos, leb_ℤ}
use trading_chart_viewer.Common.Double.{DoubleOps}
use trading_chart_viewer.Domain.{Candle, CandleSeries}
use trading_chart_viewer.Indicators.{FloatOps}
use trading_chart_viewer.Indicators.Engine.{
  closes, series_with, seed, smoothing_factor, ema_step, ema_loop, ema_values, compute_ema,
  extend_from, update_ema_incremental,
}
use trading_chart_viewer.Indicators.Values.{
  average, ema_values-append, back-ema_values, compute_ema-short, compute_ema-long, length-closes,
  closes-append, replicate-append_last, length-compute_ema,
}

drop-all : {A : Type 0} (n : ℕ) (xs : List A) → length xs ≤ n → drop n xs ≡ []
drop-all zero [] h = refl
drop-all (suc n) [] h = refl
drop-all zero (x ∷ xs) h = absurd (omega (arith, h))
drop-all (suc n) (x ∷ xs) h = drop-all n xs (omega (arith, h))

-- The series with one more candle.
abbrev pub grown : {D : Type 0} → CandleSeries D → Candle D → CandleSeries D
grown s c = record s { candles = s.candles ++ c ∷ [] }

module _ {F D : Type 0} (fs : FloatOps F D) (ops : DoubleOps D) (s : CandleSeries D) (c : Candle D)
    (n : ℕ) (p : 0 < n) where
  one_more : length (grown s c).candles ≡ length s.candles + 1
  one_more = length-append s.candles (c ∷ [])

  usable : (leb_ℤ (pos n) (pos 0) || length (grown s c).candles == 0) ≡ false
  usable = let more = one_more in ground arith

  in_step :
      not ((length (compute_ema fs ops s (pos n)).values + 1) == length (grown s c).candles) ≡ false
  in_step = let more = one_more in let size = length-compute_ema fs ops s n p in ground arith

  grown_lem :
      n ≤ length s.candles
      → compute_ema fs ops (grown s c) (pos n)
        ≡ series_with (pos n) (
            ema_values fs ops n (closes s)
            ++ fs.narrow
                (ema_step ops (smoothing_factor ops (pos n)) (average fs ops n (closes s)) c.close)
              ∷ [])
  grown_lem h =
      let more = one_more in
      compute_ema-long fs ops (grown s c) n p (omega (arith, h, more))
      ∙ ap (λ ps. series_with (pos n) (ema_values fs ops n ps)) (closes-append fs ops s.candles c)
      ∙ ap (series_with (pos n))
          (ema_values-append fs ops n (closes s) c.close (rw (length-closes fs ops s.candles) h))

  update-short :
      length s.candles + 1 < n
      → update_ema_incremental fs ops (grown s c) (pos n) (compute_ema fs ops s (pos n))
        ≡ compute_ema fs ops (grown s c) (pos n)
  unfolding update_ema_incremental
  update-short h =
      let more = one_more in
      let short : ltb (length (grown s c).candles) n ≡ true = ground arith in
      let same_size : suc (length s.candles) ≡ length s.candles + 1 = omega arith in
      rw
        (
          usable,
          in_step,
          short,
          compute_ema-short fs ops s n (ground arith),
          compute_ema-short fs ops (grown s c) n (ground arith),
          more,
          replicate-append_last fs ops (length s.candles) fs.nan,
        )
        (ap (λ k. series_with (pos n) (replicate k fs.nan)) same_size)

  update-first :
      length s.candles + 1 ≡ n
      → update_ema_incremental fs ops (grown s c) (pos n) (compute_ema fs ops s (pos n))
        ≡ compute_ema fs ops (grown s c) (pos n)
  unfolding update_ema_incremental ema_values ema_loop
  update-first h =
      let more = one_more in
      let not_short : ltb (length (grown s c).candles) n ≡ false = ground arith in
      let first : (length (grown s c).candles == n) ≡ true = ground arith in
      let prices = closes (grown s c) in
      let none_left : drop n prices ≡ [] =
        drop-all n prices
          (rw (length-closes fs ops (grown s c).candles) (omega (arith, h, more))) in
      let warm : length s.candles ≡ n - 1 = omega (arith, h) in
      rw
        (
          usable,
          in_step,
          not_short,
          first,
          compute_ema-short fs ops s n (omega (arith, h)),
          compute_ema-long fs ops (grown s c) n p (omega (arith, h, more)),
        )
        (ap (λ k. series_with (pos n) (replicate k fs.nan ++ fs.narrow (seed ops n prices) ∷ []))
            warm
          ∙ ap
              (λ rest. series_with (pos n) (
                replicate (n - 1) fs.nan
                ++ fs.narrow (seed ops n prices)
                  ∷ ema_loop fs ops (smoothing_factor ops (pos n)) (seed ops n prices) rest))
              (sym none_left))

  -- The average of the series is one that a `float` holds.
  abbrev pub IsStored : Type 0
  IsStored = fs.widen (fs.narrow (average fs ops n (closes s))) ≡ average fs ops n (closes s)

  update-later :
      IsStored
      → n ≤ length s.candles
      → update_ema_incremental fs ops (grown s c) (pos n) (compute_ema fs ops s (pos n))
        ≡ compute_ema fs ops (grown s c) (pos n)
  unfolding update_ema_incremental extend_from
  update-later stored h =
      let more = one_more in
      let not_short : ltb (length (grown s c).candles) n ≡ false = ground arith in
      let not_first : (length (grown s c).candles == n) ≡ false = ground arith in
      let old = average fs ops n (closes s) in
      rw (usable, in_step, not_short, not_first, compute_ema-long fs ops s n p h)
        (rw (back-ema_values fs ops n (closes s), back-append s.candles c)
          (elim (Bool-cases (fs.is_finite (fs.narrow old))) [
            | inl e ↦ rw (e, stored) (sym (grown_lem h))
            | inr e ↦ rw e refl
          ]))

  -- Where the last average of a series is a number that a `float` holds, updating what was computed
  -- for the series by one more candle gives the same as computing it anew, for every positive
  -- period, whatever the other averages lose as a `float`.
  pub update-compute_ema :
      IsStored
      → update_ema_incremental fs ops (grown s c) (pos n) (compute_ema fs ops s (pos n))
        ≡ compute_ema fs ops (grown s c) (pos n)
  update-compute_ema stored = elim (Bool-cases (ltb (length s.candles) n)) [
    | inl e ↦ elim (Bool-cases (length s.candles + 1 == n)) [
      | inl same ↦ update-first (ground arith)
      | inr less ↦ update-short (ground arith)
    ]
    | inr e ↦ update-later stored (ground arith)
  ]
