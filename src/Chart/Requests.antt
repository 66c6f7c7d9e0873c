-- ===== src/Chart/Requests.antt =====
-- The requests for older candles.
use trading_chart_viewer.Common.{
  ◌-◌, ◌≡◌, refl, ap, sym, ◌∙◌, ◌⊎◌, Bool, true, false, ◌&&◌, some, [], ◌∷◌, ◌++◌, ◌==◌, ltb, arith,
  if◌then◌else◌, Bool-cases, inl, inr,
}
use trading_chart_viewer.Common.Int.{
  ℤ, pos, ◌+ℤ◌, ◌-ℤ◌, ◌*ℤ◌, ◌≤ℤ◌, ◌<ℤ◌, ltb_ℤ, leb_ℤ, max_ℤ, int_laws,
}
use trading_chart_viewer.Domain.{CandleSeries}
use trading_chart_viewer.Chart.{Viewport, Call, Controller}
use trading_chart_viewer.Chart.Methods.{
  usable_series, series_interval_ms, request_older, request_with, maybe_request_backfill, view_span,
  desired_start, backfill_batch_candles, to_size_t,
}
use trading_chart_viewer.Chart.Visible.{IsVisible}

-- The request asks for something older than the series, from no negative time.
pub record IsOlder {D : Type 0} (s : CandleSeries D) (start : ℤ) : Type 0 where
  pub not_negative : pos 0 ≤ℤ start
  pub older : start <ℤ s.first_open

desired_start-IsOlder :
    {D : Type 0} (s : CandleSeries D)
    → leb_ℤ s.first_open (desired_start s) ≡ false
    → IsOlder s (desired_start s)
unfolding desired_start max_ℤ
desired_start-IsOlder s h = record { not_negative = ground arith; older = ground (arith, h) }

zero_times : (i : ℤ) → pos 0 *ℤ i ≡ pos 0
unfolding ◌*ℤ◌
zero_times i = ground arith

module _ {F D : Type 0} where
  -- The state after a request for the candles from `start` on.
  unfoldable pub asked : ℤ → Controller F D → Controller F D
  asked start c = record c {
    backfill_in_flight = true;
    awaited_first_open = start;
    calls = c.calls ++ Call.backfill start backfill_batch_candles ∷ [];
  }

  if_same : (a b : Bool) (x : Controller F D) → (if a then x else if b then x else x) ≡ x
  if_same true b x = refl
  if_same false true x = refl
  if_same false false x = refl

  if_older :
      {P : Type 0} (a b o d : Bool) (x y : Controller F D)
      → (d ≡ false → P)
      → let r = if a then x else if b then x else if o then x else if d then x else y in
        (r ≡ x) ⊎ ((r ≡ y) × P)
  if_older true b o d x y h = inl refl
  if_older false true o d x y h = inl refl
  if_older false false true d x y h = inl refl
  if_older false false false true x y h = inl refl
  if_older false false false false x y h = inr (refl, h refl)

  request_older-cases :
      (s : CandleSeries D) (c : Controller F D)
      → (request_older s c ≡ c)
        ⊎ ((request_older s c ≡ asked (desired_start s) c) × (IsOlder s (desired_start s)))
  unfolding request_older asked
  request_older-cases s c =
      let interval = series_interval_ms s in
      let left_most = c.view.rightmost_open_time -ℤ view_span s c.view in
      if_older (leb_ℤ interval (pos 0)) (ltb_ℤ (s.first_open +ℤ pos 50 *ℤ interval) left_most)
        (c.backfill_in_flight && leb_ℤ c.awaited_first_open left_most)
        (leb_ℤ s.first_open (desired_start s)) c (asked (desired_start s) c)
        (desired_start-IsOlder s)

  view_left :
      (s : CandleSeries D) (view : Viewport F)
      → IsVisible s view
      → s.first_open ≤ℤ view.rightmost_open_time -ℤ view_span s view
  unfolding view_span to_size_t
  view_left s view v =
      let edge = v.left_edge in
      let one = v.some_visible in
      let some_size : (view.candles_visible == 0) ≡ false = ground arith in
      elim (Bool-cases (ltb 1 view.candles_visible)) [
        | inl e ↦ rw (e, some_size) (omega (int_laws, edge))
        | inr e ↦
            let single : view.candles_visible - 1 ≡ 0 = ground arith in
            rw e (omega (int_laws, rw (single, zero_times (series_interval_ms s)) at edge))
      ]

  -- A request that was made is not made again while the view is within the series.
  request_older-asked :
      (s : CandleSeries D) (c : Controller F D) (start : ℤ)
      → IsVisible s c.view
      → IsOlder s start
      → request_older s (asked start c) ≡ asked start c
  unfolding request_older asked
  request_older-asked s c start v older =
      let left_most = c.view.rightmost_open_time -ℤ view_span s c.view in
      let left = view_left s c.view v in
      let waits : leb_ℤ start left_most ≡ true = ground (arith, left, older.older) in
      rw waits (if_same _ _ (asked start c))

  request_older-idempotent :
      (s : CandleSeries D) (c : Controller F D)
      → IsVisible s c.view
      → request_older s (request_older s c) ≡ request_older s c
  request_older-idempotent s c v = elim (request_older-cases s c) [
    | inl e ↦ ap (request_older s) e
    | inr (e, older) ↦
        ap (request_older s) e ∙ request_older-asked s c (desired_start s) v older ∙ sym e
  ]

  request_older-kept :
      (s : CandleSeries D) (c : Controller F D)
      → ((request_older s c).series ≡ c.series)
        × ((request_older s c).has_backfill_request ≡ c.has_backfill_request)
  unfolding asked
  request_older-kept s c = elim (request_older-cases s c) [
    | inl e ↦ (ap (λ x. x.series) e, ap (λ x. x.has_backfill_request) e)
    | inr (e, older) ↦ (ap (λ x. x.series) e, ap (λ x. x.has_backfill_request) e)
  ]

module _ {F D : Type 0} (s : CandleSeries D) (c : Controller F D)
    (e : usable_series c.series ≡ some s) (v : IsVisible s c.view) where
  maybe-allowed :
      (x : Controller F D)
      → usable_series x.series ≡ some s
      → x.has_backfill_request ≡ true
      → maybe_request_backfill x ≡ request_older s x
  unfolding maybe_request_backfill
  maybe-allowed x u h =
      ap (λ o. request_with o x) u ∙ ap (λ b. if b then request_older s x else x) h

  maybe-silent : c.has_backfill_request ≡ false → maybe_request_backfill c ≡ c
  unfolding maybe_request_backfill
  maybe-silent h = ap (λ o. request_with o c) e ∙ ap (λ b. if b then request_older s c else c) h

  repeated :
      c.has_backfill_request ≡ true → maybe_request_backfill (request_older s c) ≡ request_older s c
  repeated h =
      let kept = request_older-kept s c in
      maybe-allowed (request_older s c) (ap usable_series kept.0 ∙ e) (kept.1 ∙ h)
      ∙ request_older-idempotent s c v

  -- With a view within the series, which is not empty, asking for older candles either changes nothing or makes one
  -- request, from a time that is not negative and before the series, and marks it as in flight; and
  -- asking again at once changes nothing.
  pub maybe_request_backfill-once :
      (maybe_request_backfill (maybe_request_backfill c) ≡ maybe_request_backfill c)
      × ((maybe_request_backfill c ≡ c)
          ⊎ ((maybe_request_backfill c ≡ asked (desired_start s) c) × IsOlder s (desired_start s)))
  maybe_request_backfill-once = elim (Bool-cases c.has_backfill_request) [
    | inl h ↦
        let same = maybe-allowed c e h in
        (
          ap maybe_request_backfill same ∙ repeated h ∙ sym same,
          elim (request_older-cases s c) [
            | inl n ↦ inl (same ∙ n)
            | inr (y, older) ↦ inr (same ∙ y, older)
          ],
        )
    | inr h ↦ (ap maybe_request_backfill (maybe-silent h), inl (maybe-silent h))
  ]
