-- ===== src/Indicators/Calculator.antt =====
-- src/indicators/EMACalculator.cpp: the average over prices in one type of numbers. `none` is the
-- exception `std::invalid_argument`.
use trading_chart_viewer.Common.{
  ℕ, ◌≤◌, ◌<◌, ◌≡◌, refl, ap, false, Option, none, some, List, [], ◌∷◌, ◌++◌, length, take, drop,
  ltb, arith, zero, suc, if◌then◌else◌, length-append,
}
use trading_chart_viewer.Common.Int.{ℤ, pos, pos_part, leb_ℤ}
use trading_chart_viewer.Common.Double.{DoubleOps}
use trading_chart_viewer.Indicators.Engine.{seed, ema_step, sum_from}

module _ {F : Type 0} (ops : DoubleOps F) where
  unfoldable pub multiplier_of : ℤ → F
  multiplier_of periods =
      ops.div (ops.of_int (pos 2)) (ops.add (ops.of_int periods) (ops.of_int (pos 1)))

  unfoldable pub fold_ema : F → F → List F → F
  fold_ema multiplier ema [] = ema
  fold_ema multiplier ema (price ∷ prices) =
      fold_ema multiplier (ema_step ops multiplier ema price) prices

  unfoldable pub calculate_ema_from_scratch : List F → ℤ → Option F
  calculate_ema_from_scratch prices periods =
      let n = pos_part periods in
      if leb_ℤ periods (pos 0)
      then none
      else if ltb (length prices) n
      then none
      else some (fold_ema (multiplier_of periods) (seed ops n prices) (drop n prices))

  unfoldable pub calculate_ema_with_previous : F → F → ℤ → Option F
  calculate_ema_with_previous previous price periods =
      if leb_ℤ periods (pos 0)
      then none
      else some (ema_step ops (multiplier_of periods) previous price)

  pub fold_ema-append :
      (m ema price : F) (prices : List F)
      → fold_ema m ema (prices ++ price ∷ []) ≡ ema_step ops m (fold_ema m ema prices) price
  unfolding fold_ema
  fold_ema-append m ema price [] = refl
  fold_ema-append m ema price (p ∷ ps) = fold_ema-append m (ema_step ops m ema p) price ps

module _ {A : Type 0} where
  pub drop-append_last :
      (n : ℕ) (xs : List A) (a : A) → n ≤ length xs → drop n (xs ++ a ∷ []) ≡ drop n xs ++ a ∷ []
  drop-append_last zero xs a h = refl
  drop-append_last (suc n) [] a h = absurd (omega (arith, h))
  drop-append_last (suc n) (x ∷ xs) a h = drop-append_last n xs a (omega (arith, h))

  pub take-append_last :
      (n : ℕ) (xs : List A) (a : A) → n ≤ length xs → take n (xs ++ a ∷ []) ≡ take n xs
  take-append_last zero xs a h = refl
  take-append_last (suc n) [] a h = absurd (omega (arith, h))
  take-append_last (suc n) (x ∷ xs) a h = ap (◌∷◌ x) (take-append_last n xs a (omega (arith, h)))

pub seed-append_last :
    {D : Type 0} (ops : DoubleOps D) (n : ℕ) (xs : List D) (a : D)
    → n ≤ length xs
    → seed ops n (xs ++ a ∷ []) ≡ seed ops n xs
unfolding seed
seed-append_last ops n xs a h =
    ap (λ ys. ops.div (sum_from ops ops.zero ys) (ops.of_int (pos n))) (take-append_last n xs a h)

-- For a positive period and at least as many prices, the average of the prices with one more is the
-- average of the prices, brought on by that one; neither throws.
pub calculate_ema-append :
    {F : Type 0} (ops : DoubleOps F) (n : ℕ) (prices : List F) (price : F)
    → 0 < n
    → n ≤ length prices
    → (ema : F) × (calculate_ema_from_scratch ops prices (pos n) ≡ some ema)
      × (calculate_ema_from_scratch ops (prices ++ price ∷ []) (pos n)
          ≡ calculate_ema_with_previous ops ema price (pos n))
unfolding calculate_ema_from_scratch calculate_ema_with_previous
calculate_ema-append ops n prices price p h =
    let positive : leb_ℤ (pos n) (pos 0) ≡ false = ground arith in
    let enough : ltb (length prices) n ≡ false = ground arith in
    let more : ltb (length (prices ++ price ∷ [])) n ≡ false =
      rw (length-append prices (price ∷ [])) (ground arith) in
    let m = multiplier_of ops (pos n) in
    (
      fold_ema ops m (seed ops n prices) (drop n prices),
      rw (positive, enough) refl,
      rw (positive, more, seed-append_last ops n prices price h, drop-append_last n prices price h)
          (ap some (fold_ema-append ops m (seed ops n prices) price (drop n prices))),
    )
