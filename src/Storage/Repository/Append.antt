-- ===== src/Storage/Repository/Append.antt =====
-- The methods of the repository that take one candle, or seal the last one, under its lock.
use trading_chart_viewer.Common.{
  Bool, true, false, ◌&&◌, ◌||◌, not, Option, none, some, [], ◌∷◌, ◌++◌, back, set_back,
  if◌then◌else◌,
}
use trading_chart_viewer.Common.Int.{◌+ℤ◌, ltb_ℤ, ◌==ℤ◌}
use trading_chart_viewer.Common.Double.{DoubleOps}
use trading_chart_viewer.Core.{TimeUtils}
use trading_chart_viewer.Domain.{Candle, RangeState, AppendResult, no_append}
use trading_chart_viewer.Storage.Repository.State.{
  Repository, to_price_data, normalize_candle, refresh_if, has_tail_open,
}
use trading_chart_viewer.Storage.Record.{PriceData, is_valid_record}
use trading_chart_viewer.Storage.Manager.{save_records}

abbrev pub appended_result : Bool → Bool → AppendResult
appended_result touched live = record no_append {
  appended = 1;
  touched_disk = touched;
  live_only = live;
}

abbrev pub replaced_result : Bool → Bool → AppendResult
replaced_result touched live = record no_append {
  state = RangeState.replaced;
  touched_disk = touched;
  live_only = live;
}

module _ {D : Type 0} (u : TimeUtils) (ops : DoubleOps D) (garbage : PriceData D) where
  unfoldable pub persist_closed : Repository D → Candle D → Bool × Repository D
  persist_closed r c =
      let rec = to_price_data ops r.layout c in
      if not c.is_closed
      then (false, r)
      else if not (is_valid_record rec)
      then (false, r)
      else (true, record r { file = save_records u garbage r.file (rec ∷ []) })

  -- The first candle of an empty series.
  unfoldable pub append_first : Repository D → Candle D → AppendResult × Repository D
  unfolding persist_closed refresh_if
  append_first r n =
      let (touched, saved) = persist_closed (record r { candles = r.candles ++ n ∷ [] }) n in
      (
        appended_result touched (not n.is_closed),
        record (refresh_if touched saved) { has_gap = false },
      )

  -- A candle at the time of the last one.
  unfoldable pub replace_last : Repository D → Candle D → Candle D → AppendResult × Repository D
  unfolding persist_closed refresh_if
  replace_last r last n =
      let (touched, saved) = persist_closed (record r { candles = set_back r.candles n }) n in
      if last.is_closed && not n.is_closed
      then (record no_append { state = RangeState.overlap }, r)
      else (
        replaced_result touched (not n.is_closed),
        record (refresh_if touched saved) { has_gap = false },
      )

  -- The last candle is closed and persisted once a later one is there.
  unfoldable pub seal_last : Repository D → Candle D → Bool × Repository D
  unfolding persist_closed
  seal_last r last =
      let sealed = record last { is_closed = true } in
      let (touched, saved) =
        persist_closed (record r { candles = set_back r.candles sealed }) sealed in
      if last.is_closed then (false, r) else (touched, saved)

  -- The candle that follows the last one.
  unfoldable pub append_next : Repository D → Candle D → Candle D → AppendResult × Repository D
  unfolding persist_closed refresh_if seal_last
  append_next r last n =
      let (touched_last, sealed) = seal_last r last in
      let (touched_new, saved) =
        persist_closed (record sealed { candles = sealed.candles ++ n ∷ [] }) n in
      let touched = touched_new || touched_last in
      (
        appended_result touched (not n.is_closed),
        record (refresh_if touched saved) { has_gap = false },
      )

  unfoldable pub append_after :
      Repository D → Candle D → Option (Candle D) → AppendResult × Repository D
  append_after r n none = append_first r n
  append_after r n (some last) =
      let expected = last.open_time +ℤ r.layout.interval_ms in
      if n.open_time ==ℤ last.open_time
      then replace_last r last n
      else if ltb_ℤ n.open_time expected
      then (record no_append { state = RangeState.overlap }, r)
      else if ltb_ℤ expected n.open_time
      then (
        record no_append {
          state = RangeState.gap;
          expected_from = expected;
          expected_to = n.open_time;
        },
        record r { has_gap = true },
      )
      else append_next r last n

  -- `appendOrReplaceLocked`, and `appendOrReplace` under the lock.
  unfoldable pub append_or_replace_locked : Repository D → Candle D → AppendResult × Repository D
  append_or_replace_locked r c =
      let normalized = normalize_candle r.layout c in
      if not (is_valid_record (to_price_data ops r.layout normalized))
      then (no_append, r)
      else append_after r normalized (back r.candles)

  unfoldable pub seal_tail : Repository D → Option (Candle D) → AppendResult × Repository D
  unfolding persist_closed refresh_if
  seal_tail r none = (no_append, r)
  seal_tail r (some tail) =
      let sealed = record tail { is_closed = true } in
      let (touched, saved) =
        persist_closed (record r { candles = set_back r.candles sealed }) sealed in
      (
        record no_append { state = RangeState.replaced; touched_disk = touched },
        refresh_if touched saved,
      )

  unfoldable pub seal_open_tail_if_any : Repository D → AppendResult × Repository D
  unfolding seal_tail has_tail_open
  seal_open_tail_if_any r = if has_tail_open r then seal_tail r (back r.candles) else (no_append, r)
