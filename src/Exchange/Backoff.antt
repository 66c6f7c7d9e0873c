-- ===== src/Exchange/Backoff.antt =====
-- `computeBackoffMs`: the wait before another attempt.
use native.Mathlib.Nat.{pow-le-pow_right, mul-le-mul_left}
use trading_chart_viewer.Common.{
  ℕ, ◌*◌, ◌^◌, ◌≤◌, Bool, true, false, min, arith, Bool-cases, inl, inr, if◌then◌else◌,
}
use trading_chart_viewer.Common.Int.{ℤ, pos, pos_part, ◌<ℤ◌, ltb_ℤ, leb_ℤ, lt→ltb_ℤ}
use trading_chart_viewer.Exchange.{ExchangeGatewayConfig}

-- The shift is by at most 16 and the base is an `int`, so that nothing overflows.
unfoldable pub compute_backoff_ms : ExchangeGatewayConfig → ℕ → ℕ
compute_backoff_ms cfg attempt =
    let raw = pos_part cfg.backoff_base_ms * 2 ^ min attempt 16 in
    if leb_ℤ cfg.backoff_base_ms (pos 0)
    then 0
    else min raw (if ltb_ℤ (pos 0) cfg.backoff_cap_ms then pos_part cfg.backoff_cap_ms else raw)

pow_mono : (a b : ℕ) → a ≤ b → 2 ^ a ≤ 2 ^ b
pow_mono a b h = pow-le-pow_right (omega arith) h

raw_mono : (n a b : ℕ) → a ≤ b → n * 2 ^ min a 16 ≤ n * 2 ^ min b 16
raw_mono n a b h = mul-le-mul_left n (pow_mono (min a 16) (min b 16) (omega (arith, h)))

capped_mono :
    (capped : Bool) (cap x y : ℕ)
    → x ≤ y
    → min x (if capped then cap else x) ≤ min y (if capped then cap else y)
capped_mono true cap x y h = omega (arith, h)
capped_mono false cap x y h = omega (arith, h)

capped_bound :
    (cap : ℤ) (x : ℕ)
    → pos 0 <ℤ cap
    → min x (if ltb_ℤ (pos 0) cap then pos_part cap else x) ≤ pos_part cap
capped_bound cap x h = rw (lt→ltb_ℤ (pos 0) cap h) (omega arith)

-- The wait is at most the cap where that is positive, and it does not get shorter from one attempt to
-- a later one.
pub compute_backoff_ms-bounds :
    (cfg : ExchangeGatewayConfig) (a b : ℕ)
    → (pos 0 <ℤ cfg.backoff_cap_ms → compute_backoff_ms cfg a ≤ pos_part cfg.backoff_cap_ms)
      × (a ≤ b → compute_backoff_ms cfg a ≤ compute_backoff_ms cfg b)
unfolding compute_backoff_ms
compute_backoff_ms-bounds cfg a b =
    let raw = λ (n : ℕ). pos_part cfg.backoff_base_ms * 2 ^ min n 16 in
    let capped = ltb_ℤ (pos 0) cfg.backoff_cap_ms in
    let cap = pos_part cfg.backoff_cap_ms in
    elim (Bool-cases (leb_ℤ cfg.backoff_base_ms (pos 0))) [
      | inl none ↦ rw none (λ h. omega arith, λ h. omega arith)
      | inr some ↦ rw some (
        λ h. capped_bound cfg.backoff_cap_ms (raw a) h,
        λ h. capped_mono capped cap (raw a) (raw b) (raw_mono _ a b h),
      )
    ]
