-- ===== src/Storage/Repository/Methods.antt =====
-- Every method that changes the repository keeps the invariant.
use trading_chart_viewer.Common.{
  back-none, ℕ, ◌≡◌, refl, ap, ◌∙◌, Bool, true, false, some, none, List, [], ◌∷◌, Option, inl, inr,
  back, set_back, All, All-back, arith, Bool-cases,
}
use trading_chart_viewer.Common.Int.{ℤ, pos, ◌+ℤ◌, ◌≤ℤ◌, ◌==ℤ◌, ltb_ℤ, ==ℤ-eq}
use trading_chart_viewer.Common.Double.{DoubleOps}
use trading_chart_viewer.Core.{TimeUtils, IsTimeUtils}
use trading_chart_viewer.Domain.{Candle, AppendResult, no_append}
use trading_chart_viewer.Storage.Record.{PriceData, is_valid_record}
use trading_chart_viewer.Storage.Repository.State.{
  Layout, Repository, to_price_data, normalize_candle, has_tail_open,
}
use trading_chart_viewer.Storage.Repository.Append.{
  append_after, append_or_replace_locked, seal_tail, seal_open_tail_if_any,
}
use trading_chart_viewer.Storage.Repository.Storable.{
  IsLayout, IsStorable, normalize_candle-IsStorable,
}
use trading_chart_viewer.Storage.Repository.Invariant.{
  Inv, IsStored-same, settled-Inv, persist_replaced,
}
use trading_chart_viewer.Storage.Repository.Preserve.{
  sealed, replace_last-Inv, append_next-Inv, append_first-Inv, sealed-back, sealed-IsStorable,
}
use trading_chart_viewer.Storage.Repository.Batch.{
  batch_loop, append_batch, summarize, sort_by_open, sort_by_open-All,
}

module _ {D : Type 0} (u : TimeUtils) (times : IsTimeUtils u) (ops : DoubleOps D)
    (garbage : PriceData D) (k : ℕ) (l : Layout) (good : IsLayout u k l) where
  gap-Inv :
      (r : Repository D) (g : Bool) → Inv u ops k l r → Inv u ops k l (record r { has_gap = g })
  gap-Inv r g v = record {
    kept = IsStored-same u times ops garbage k l good _ r v.kept refl refl refl;
    counted = v.counted;
  }

  -- A candle that is neither before nor after the expected time opens at it.
  at_expected : (a b : ℤ) → ltb_ℤ a b ≡ false → ltb_ℤ b a ≡ false → a ≡ b
  at_expected a b h g = ground arith

  append_after_last-Inv :
      (r : Repository D) (last n : Candle D)
      → Inv u ops k l r
      → back r.candles ≡ some last
      → IsStorable k n
      → Inv u ops k l (append_after u ops garbage r n (some last)).1
  unfolding append_after
  append_after_last-Inv r last n v e s =
      let expected = last.open_time +ℤ r.layout.interval_ms in
      elim (Bool-cases (n.open_time ==ℤ last.open_time)) [
        | inl same ↦
            rw same (replace_last-Inv u times ops garbage k l good r last n v e (==ℤ-eq _ _ same) s)
        | inr other ↦ rw other (elim (Bool-cases (ltb_ℤ n.open_time expected)) [
          | inl early ↦ rw early v
          | inr not_early ↦ rw not_early (elim (Bool-cases (ltb_ℤ expected n.open_time)) [
            | inl late ↦ rw late (gap-Inv r true v)
            | inr not_late ↦ rw not_late (
                append_next-Inv u times ops garbage k l good r last n v e
                  (at_expected _ _ not_early not_late
                    ∙ ap (◌+ℤ◌ last.open_time)
                        (ap (λ (x : Layout). x.interval_ms) v.kept.same_layout ∙ good.minutes))
                  s)
          ])
        ])
      ]

  append_after-Inv :
      (r : Repository D) (n : Candle D) (o : Option (Candle D))
      → Inv u ops k l r
      → back r.candles ≡ o
      → IsStorable k n
      → Inv u ops k l (append_after u ops garbage r n o).1
  unfolding append_after
  append_after-Inv r n none v e s =
      append_first-Inv u times ops garbage k l good r n v (back-none r.candles e) s
  append_after-Inv r n (some last) v e s = append_after_last-Inv r last n v e s

  normalized-IsStorable :
      (r : Repository D) (c : Candle D)
      → r.layout ≡ l
      → pos 0 ≤ℤ c.trades
      → is_valid_record (to_price_data ops r.layout (normalize_candle r.layout c)) ≡ true
      → IsStorable k (normalize_candle r.layout c)
  normalized-IsStorable r c e h v =
      rw e (normalize_candle-IsStorable u times ops k l good c h (rw e at v))

  -- Appending or replacing any candle whose trade count is not negative keeps the invariant, also
  -- where the candle is refused as invalid, as an overlap or for a gap.
  pub append_or_replace_locked-Inv :
      (r : Repository D) (c : Candle D)
      → Inv u ops k l r
      → pos 0 ≤ℤ c.trades
      → Inv u ops k l (append_or_replace_locked u ops garbage r c).1
  unfolding append_or_replace_locked
  append_or_replace_locked-Inv r c v h =
      let n = normalize_candle r.layout c in
      elim (Bool-cases (is_valid_record (to_price_data ops r.layout n))) [
        | inl ok ↦ rw ok (
            append_after-Inv r n (back r.candles) v refl
              (normalized-IsStorable r c v.kept.same_layout h ok))
        | inr refused ↦ rw refused v
      ]

  seal_tail-Inv :
      (r : Repository D) (o : Option (Candle D))
      → Inv u ops k l r
      → back r.candles ≡ o
      → Inv u ops k l (seal_tail u ops garbage r o).1
  unfolding seal_tail
  seal_tail-Inv r none v e = v
  seal_tail-Inv r (some last) v e =
      let w = sealed-back u times ops garbage k l good r last v.kept e in
      rw
        (persist_replaced u times ops garbage k l good r last (sealed last) v.kept e refl
          (sealed-IsStorable u times ops garbage k l good last
            (All-back (IsStorable k) r.candles last v.kept.storable e))
          (ground arith))
        (settled-Inv u times ops garbage k l good r (set_back r.candles (sealed last)) true
          r.has_gap v w.linked w.storable (λ x. absurd (ground (arith, x))))

  pub seal_open_tail_if_any-Inv :
      (r : Repository D) → Inv u ops k l r → Inv u ops k l (seal_open_tail_if_any u ops garbage r).1
  unfolding seal_open_tail_if_any
  seal_open_tail_if_any-Inv r v = elim (Bool-cases (has_tail_open r)) [
    | inl pending ↦ rw pending (seal_tail-Inv r (back r.candles) v refl)
    | inr settled ↦ rw settled v
  ]

  batch_loop-Inv :
      (s : AppendResult) (r : Repository D) (cs : List (Candle D))
      → Inv u ops k l r
      → All (λ c. pos 0 ≤ℤ c.trades) cs
      → Inv u ops k l (batch_loop u ops garbage s r cs).1
  unfolding batch_loop
  batch_loop-Inv s r [] v h = v
  batch_loop-Inv s r (c ∷ cs) v h =
      let step = append_or_replace_locked u ops garbage r c in
      let w = append_or_replace_locked-Inv r c v h.0 in
      elim (Bool-cases (summarize s step.0).1) [
        | inl on ↦ rw on (batch_loop-Inv (summarize s step.0).0 step.1 cs w h.1)
        | inr done ↦ rw done w
      ]

  -- Any batch keeps the invariant, wherever the loop stops.
  pub append_batch-Inv :
      (r : Repository D) (cs : List (Candle D))
      → Inv u ops k l r
      → All (λ c. pos 0 ≤ℤ c.trades) cs
      → Inv u ops k l (append_batch u ops garbage r cs).1
  unfolding append_batch
  append_batch-Inv r [] v h = v
  append_batch-Inv r (c ∷ cs) v h =
      batch_loop-Inv no_append r (sort_by_open (c ∷ cs)) v (sort_by_open-All _ (c ∷ cs) h)
