-- ===== src/Domain/Alignment.antt =====
-- What aligning a timestamp does to it.
use trading_chart_viewer.Common.{ℕ, suc, ◌+◌, ◌-◌, ◌*◌, ◌/◌, ◌<◌, ◌≡◌, ap, ◌∙◌, arith}
use trading_chart_viewer.Common.Int.{
  ℤ, pos, negsuc, sub_ℕ, ◌+ℤ◌, ◌-ℤ◌, ◌*ℤ◌, ◌/ℤ◌, ◌≤ℤ◌, ◌<ℤ◌, int_laws,
}
use trading_chart_viewer.Domain.{align_down_ms, align_up_ms}

pub align_down_ms-pos : (t s : ℕ) → 0 < s → align_down_ms (pos t) (pos s) ≡ pos (t / s * s)
unfolding align_down_ms ◌/ℤ◌ ◌*ℤ◌
align_down_ms-pos t s h = ground arith

negate_times : (q s : ℕ) → sub_ℕ 0 q *ℤ pos s ≤ℤ pos 0
unfolding ◌*ℤ◌
negate_times q s = ground arith

pub align_down_ms-negsuc_le : (t : ℕ) (s : ℤ) → align_down_ms (negsuc t) s ≤ℤ pos 0
unfolding align_down_ms ◌/ℤ◌
align_down_ms-negsuc_le t (pos s) = ground (arith, negate_times (suc t / s) s)
align_down_ms-negsuc_le t (negsuc s) = ground arith

-- No time up to zero is aligned to a positive one.
pub align_down_ms_nonpos : (t s : ℤ) → t ≤ℤ pos 0 → align_down_ms t s ≤ℤ pos 0
unfolding align_down_ms ◌/ℤ◌ ◌*ℤ◌
align_down_ms_nonpos (pos t) (pos s) h = ground arith
align_down_ms_nonpos (pos t) (negsuc s) h = ground arith
align_down_ms_nonpos (negsuc t) s h = align_down_ms-negsuc_le t s

-- The multiples of `s` are left alone.
pub align_down_ms-multiple : (k s : ℕ) → 0 < s → align_down_ms (pos (k * s)) (pos s) ≡ pos (k * s)
align_down_ms-multiple k s h = align_down_ms-pos (k * s) s h ∙ ap pos (grind arith)

pub align_down_ms-idempotent :
    (t s : ℕ) → 0 < s → align_down_ms (align_down_ms (pos t) (pos s)) (pos s) ≡ pos (t / s * s)
align_down_ms-idempotent t s h = rw (align_down_ms-pos t s h) (align_down_ms-multiple (t / s) s h)

align_up_ms-pos : (t s : ℕ) → 0 < s → align_up_ms (pos t) (pos s) ≡ pos ((t + s - 1) / s * s)
unfolding align_up_ms ◌/ℤ◌ ◌*ℤ◌ ◌+ℤ◌ ◌-ℤ◌
align_up_ms-pos t s h = ground arith

-- From a time that is not negative, aligning down by a positive step goes back by less than a
-- step and aligning up goes on by less than a step, and aligning either result down again
-- changes nothing.
pub align_bounds :
    (t s : ℕ)
    → 0 < s
    → let down = align_down_ms (pos t) (pos s) in
      let up = align_up_ms (pos t) (pos s) in
      (down ≤ℤ pos t)
      × (pos t <ℤ down +ℤ pos s)
      × (pos t ≤ℤ up)
      × (up <ℤ pos t +ℤ pos s)
      × (align_down_ms down (pos s) ≡ down)
      × (align_down_ms up (pos s) ≡ up)
align_bounds t s h =
    rw (align_down_ms-pos t s h, align_up_ms-pos t s h)
      (
        omega int_laws,
        omega int_laws,
        omega int_laws,
        omega int_laws,
        align_down_ms-multiple (t / s) s h,
        align_down_ms-multiple ((t + s - 1) / s) s h,
      )
