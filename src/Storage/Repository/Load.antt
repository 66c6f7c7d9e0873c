-- ===== src/Storage/Repository/Load.antt =====
-- The constructor of the repository, which reads the data file back.
use trading_chart_viewer.Common.{false, not, ◌&&◌, List, [], ◌∷◌, ◌++◌, if◌then◌else◌}
use trading_chart_viewer.Common.Int.{ℤ, pos, ltb_ℤ}
use trading_chart_viewer.Core.{TimeUtils}
use trading_chart_viewer.Domain.{Candle, no_metadata, valid}
use trading_chart_viewer.Domain.Label.{Text, codes, interval_label}
use trading_chart_viewer.Storage.Record.{PriceData, is_valid_record, is_empty}
use trading_chart_viewer.Storage.Manager.{DataFile, open_manager, read_all_records}
use trading_chart_viewer.Storage.Repository.Interval.{clamp_interval_ms, parse_interval_ms}
use trading_chart_viewer.Storage.Repository.State.{Layout, Repository, to_candle, refresh_metadata}
use trading_chart_viewer.Storage.Repository.Batch.{sort_by_open}

unfoldable pub default_label : Text → Text → Text
default_label d [] = d
default_label d (c ∷ r) = c ∷ r

unfoldable pub settle_interval : Layout → Layout
unfolding default_label
settle_interval l =
    if ltb_ℤ (pos 0) l.interval_ms
    then record l {
      interval = l.interval_ms;
      interval_label = default_label (interval_label l.interval_ms) l.interval_label;
    }
    else l

module _ (u : TimeUtils) where
  -- A record's own interval, where it can be read, becomes that of the series.
  unfoldable pub adopt_interval : Layout → Text → Layout
  unfolding is_empty
  adopt_interval l label =
      let parsed = parse_interval_ms u label in
      if not (is_empty label) && ltb_ℤ (pos 0) parsed
      then record l { interval_ms = parsed; interval = parsed; interval_label = label }
      else l

  unfoldable pub initial_layout : Text → ℤ → Layout
  unfolding valid default_label clamp_interval_ms
  initial_layout symbol interval =
      let ms = if valid interval then interval else u.millis_per_minute in
      record {
        symbol = symbol;
        interval = ms;
        interval_ms = clamp_interval_ms u ms;
        interval_label = default_label (codes "1m") (interval_label ms);
      }

module _ {D : Type 0} (u : TimeUtils) where
  unfoldable pub load_loop :
      Layout → List (Candle D) → List (PriceData D) → Layout × List (Candle D)
  load_loop l cs [] = (l, cs)
  load_loop l cs (r ∷ rs) =
      let adopted = adopt_interval u l r.interval in
      let valid_record = is_valid_record r in
      load_loop (if valid_record then adopted else l)
        (if valid_record then cs ++ to_candle adopted r ∷ [] else cs) rs

  unfoldable pub load_historical_locked : Repository D → Repository D
  load_historical_locked r =
      let (l, cs) = load_loop r.layout [] (read_all_records r.file) in
      record r { candles = sort_by_open cs; layout = settle_interval l; has_gap = false }

  unfoldable pub open_repository : DataFile D → Text → ℤ → Repository D
  open_repository f symbol interval = refresh_metadata (
      load_historical_locked (record {
        candles = [];
        file = open_manager f;
        layout = initial_layout u symbol interval;
        metadata = no_metadata;
        has_gap = false;
      }))
