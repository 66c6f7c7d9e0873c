-- ===== src/Indicators/Values.antt =====
-- The values of an average, one for each candle, and what one more candle adds to them.
use mathlib.Core.List.{append_assoc}
use trading_chart_viewer.Common.{
  ℕ, zero, suc, ◌-◌, ◌≤◌, ◌<◌, ◌≡◌, refl, ap, sym, ◌∙◌, true, false, ◌||◌, some, List, [], ◌∷◌,
  ◌++◌, map, length, drop, replicate, back, ltb, ◌==◌, arith, Bool-cases, inl, inr, length-append,
  length-replicate, length-drop,
}
use trading_chart_viewer.Common.Int.{pos, leb_ℤ}
use trading_chart_viewer.Common.Double.{DoubleOps}
use trading_chart_viewer.Domain.{Candle, CandleSeries}
use trading_chart_viewer.Indicators.{FloatOps}
use trading_chart_viewer.Indicators.Engine.{
  closes, series_with, seed, smoothing_factor, ema_step, ema_loop, ema_values, compute_ema,
}
use trading_chart_viewer.Indicators.Calculator.{fold_ema, drop-append_last, seed-append_last}

module _ {F D : Type 0} (fs : FloatOps F D) (ops : DoubleOps D) where
  pub ema_loop-append :
      (alpha ema price : D) (prices : List D)
      → ema_loop fs ops alpha ema (prices ++ price ∷ [])
        ≡ ema_loop fs ops alpha ema prices
          ++ fs.narrow (ema_step ops alpha (fold_ema ops alpha ema prices) price) ∷ []
  unfolding ema_loop fold_ema
  ema_loop-append alpha ema price [] = refl
  ema_loop-append alpha ema price (p ∷ ps) =
      ap (◌∷◌ (fs.narrow (ema_step ops alpha ema p)))
        (ema_loop-append alpha (ema_step ops alpha ema p) price ps)

  -- The last value is the average itself.
  pub back-ema_loop :
      (alpha ema : D) (prices : List D)
      → back (fs.narrow ema ∷ ema_loop fs ops alpha ema prices)
        ≡ some (fs.narrow (fold_ema ops alpha ema prices))
  unfolding ema_loop fold_ema
  back-ema_loop alpha ema [] = refl
  back-ema_loop alpha ema (p ∷ ps) = back-ema_loop alpha (ema_step ops alpha ema p) ps

  pub length-ema_loop :
      (alpha ema : D) (prices : List D) → length (ema_loop fs ops alpha ema prices) ≡ length prices
  unfolding ema_loop
  length-ema_loop alpha ema [] = refl
  length-ema_loop alpha ema (p ∷ ps) = ap suc (length-ema_loop alpha (ema_step ops alpha ema p) ps)

  pub back-append_cons : {A : Type 0} (xs ys : List A) (y : A) → back (xs ++ y ∷ ys) ≡ back (y ∷ ys)
  back-append_cons [] ys y = refl
  back-append_cons (x ∷ []) ys y = refl
  back-append_cons (x ∷ z ∷ xs) ys y = back-append_cons (z ∷ xs) ys y

  unfoldable pub average : ℕ → List D → D
  average n prices = fold_ema ops (smoothing_factor ops (pos n)) (seed ops n prices) (drop n prices)

  pub ema_values-append :
      (n : ℕ) (prices : List D) (price : D)
      → n ≤ length prices
      → ema_values fs ops n (prices ++ price ∷ [])
        ≡ ema_values fs ops n prices
          ++ fs.narrow (ema_step ops (smoothing_factor ops (pos n)) (average n prices) price) ∷ []
  unfolding ema_values average
  ema_values-append n prices price h =
      rw (seed-append_last ops n prices price h, drop-append_last n prices price h)
        (ap (λ ys. replicate (n - 1) fs.nan ++ fs.narrow (seed ops n prices) ∷ ys)
            (ema_loop-append (smoothing_factor ops (pos n)) (seed ops n prices) price
              (drop n prices))
          ∙ sym (append_assoc (replicate (n - 1) fs.nan) _ _))

  pub back-ema_values :
      (n : ℕ) (prices : List D)
      → back (ema_values fs ops n prices) ≡ some (fs.narrow (average n prices))
  unfolding ema_values average
  back-ema_values n prices =
      back-append_cons (replicate (n - 1) fs.nan) _ _
      ∙ back-ema_loop (smoothing_factor ops (pos n)) (seed ops n prices) (drop n prices)

  pub compute_ema-short :
      (s : CandleSeries D) (n : ℕ)
      → length s.candles < n
      → compute_ema fs ops s (pos n) ≡ series_with (pos n) (replicate (length s.candles) fs.nan)
  unfolding compute_ema
  compute_ema-short s n h =
      let none_left : ltb (length s.candles) n ≡ true = ground arith in
      elim (Bool-cases (leb_ℤ (pos n) (pos 0) || length s.candles == 0)) [
        | inl e ↦ rw e refl
        | inr e ↦ rw (e, none_left) refl
      ]

  pub compute_ema-long :
      (s : CandleSeries D) (n : ℕ)
      → 0 < n
      → n ≤ length s.candles
      → compute_ema fs ops s (pos n) ≡ series_with (pos n) (ema_values fs ops n (closes s))
  unfolding compute_ema
  compute_ema-long s n p h =
      let enough : ltb (length s.candles) n ≡ false = ground arith in
      let usable : (leb_ℤ (pos n) (pos 0) || length s.candles == 0) ≡ false = ground arith in
      rw (usable, enough) refl

  pub length-ema_values :
      (n : ℕ) (prices : List D)
      → 0 < n
      → n ≤ length prices
      → length (ema_values fs ops n prices) ≡ length prices
  unfolding ema_values
  length-ema_values n prices p h =
      let alpha = smoothing_factor ops (pos n) in
      let first = seed ops n prices in
      let tail : length (ema_loop fs ops alpha first (drop n prices)) ≡ length prices - n =
        length-ema_loop alpha first (drop n prices) ∙ length-drop n prices in
      rw (length-append, length-replicate) (omega (arith, p, h, tail))

  pub length-closes :
      (cs : List (Candle D)) → length (map (λ (c : Candle D). c.close) cs) ≡ length cs
  length-closes [] = refl
  length-closes (c ∷ cs) = ap suc (length-closes cs)

  pub closes-append :
      (cs : List (Candle D)) (c : Candle D)
      → map (λ (x : Candle D). x.close) (cs ++ c ∷ [])
        ≡ map (λ (x : Candle D). x.close) cs ++ c.close ∷ []
  closes-append [] c = refl
  closes-append (d ∷ ds) c = ap (◌∷◌ d.close) (closes-append ds c)

  pub replicate-append_last : (n : ℕ) (x : F) → replicate n x ++ x ∷ [] ≡ replicate (suc n) x
  replicate-append_last zero x = refl
  replicate-append_last (suc n) x = ap (◌∷◌ x) (replicate-append_last n x)

  -- The values, one for each candle.
  pub length-compute_ema :
      (s : CandleSeries D) (n : ℕ)
      → 0 < n
      → length (compute_ema fs ops s (pos n)).values ≡ length s.candles
  length-compute_ema s n p = elim (Bool-cases (ltb (length s.candles) n)) [
    | inl e ↦ rw (compute_ema-short s n (ground arith)) (length-replicate (length s.candles) fs.nan)
    | inr e ↦ rw (compute_ema-long s n p (ground arith)) (
        length-ema_values n (closes s) p (rw (length-closes s.candles) (ground arith))
        ∙ length-closes s.candles)
  ]
