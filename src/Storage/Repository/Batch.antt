-- ===== src/Storage/Repository/Batch.antt =====
-- `appendBatch`.
use trading_chart_viewer.Common.{
  ◌+◌, Bool, true, false, ◌||◌, List, [], ◌∷◌, All, Bool-cases, inl, inr, if◌then◌else◌,
}
use trading_chart_viewer.Common.Int.{ltb_ℤ}
use trading_chart_viewer.Common.Double.{DoubleOps}
use trading_chart_viewer.Core.{TimeUtils}
use trading_chart_viewer.Domain.{Candle, RangeState, AppendResult, no_append}
use trading_chart_viewer.Storage.Repository.State.{Repository}
use trading_chart_viewer.Storage.Repository.Append.{append_or_replace_locked}
use trading_chart_viewer.Storage.Record.{PriceData}

-- One round of the loop of `appendBatch`: the summary so far, and whether the loop goes on.
unfoldable pub summarize : AppendResult → AppendResult → AppendResult × Bool
summarize s result =
    let counted = record s {
      appended = s.appended + result.appended;
      touched_disk = s.touched_disk || result.touched_disk;
      live_only = s.live_only || result.live_only;
    } in
    elim result.state [
      | RangeState.gap ↦ (
        record counted {
          state = RangeState.gap;
          expected_from = result.expected_from;
          expected_to = result.expected_to;
        },
        false,
      )
      | RangeState.overlap ↦ (
        record counted {
          state = elim s.state [ RangeState.gap ↦ RangeState.gap | _ ↦ RangeState.overlap ];
        },
        true,
      )
      | RangeState.replaced ↦ (
        record counted {
          state = elim s.state [ RangeState.fine ↦ RangeState.replaced | other ↦ other ];
        },
        true,
      )
      | RangeState.fine ↦ (counted, true)
    ]

-- `std::sort` by the opening time, as an insertion sort.
module _ {D : Type 0} where
  unfoldable pub insert_sorted : Candle D → List (Candle D) → List (Candle D)
  insert_sorted c [] = c ∷ []
  insert_sorted c (d ∷ ds) =
      let rest = insert_sorted c ds in
      if ltb_ℤ d.open_time c.open_time then d ∷ rest else c ∷ d ∷ ds

  unfoldable pub sort_by_open : List (Candle D) → List (Candle D)
  unfolding insert_sorted
  sort_by_open [] = []
  sort_by_open (c ∷ cs) = insert_sorted c (sort_by_open cs)

module _ {D : Type 0} where
  insert_sorted-All :
      (P : Candle D → Type 0) (c : Candle D) (cs : List (Candle D))
      → P c
      → All P cs
      → All P (insert_sorted c cs)
  unfolding insert_sorted
  insert_sorted-All P c [] h g = (h, tt)
  insert_sorted-All P c (d ∷ ds) h g = elim (Bool-cases (ltb_ℤ d.open_time c.open_time)) [
    | inl e ↦ rw e (g.0, insert_sorted-All P c ds h g.1)
    | inr e ↦ rw e (h, g)
  ]

  pub sort_by_open-All :
      (P : Candle D → Type 0) (cs : List (Candle D)) → All P cs → All P (sort_by_open cs)
  unfolding sort_by_open
  sort_by_open-All P [] h = tt
  sort_by_open-All P (c ∷ cs) h =
      insert_sorted-All P c (sort_by_open cs) h.0 (sort_by_open-All P cs h.1)

module _ {D : Type 0} (u : TimeUtils) (ops : DoubleOps D) (garbage : PriceData D) where
  unfoldable pub batch_loop :
      AppendResult → Repository D → List (Candle D) → AppendResult × Repository D
  batch_loop s r [] = (s, r)
  batch_loop s r (c ∷ cs) =
      let (result, r') = append_or_replace_locked u ops garbage r c in
      let (s', on) = summarize s result in
      let rest = batch_loop s' r' cs in if on then rest else (s', r')

  unfoldable pub append_batch : Repository D → List (Candle D) → AppendResult × Repository D
  unfolding batch_loop
  append_batch r [] = (no_append, r)
  append_batch r (c ∷ cs) = batch_loop no_append r (sort_by_open (c ∷ cs))
