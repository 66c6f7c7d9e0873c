-- ===== src/Storage/Tests.antt =====
-- Small runs of the storage, and its theorems at concrete inputs. Prices are natural numbers here.
use trading_chart_viewer.Common.{
  ℕ, ◌+◌, ◌-◌, ◌*◌, ◌≡◌, refl, Bool, true, false, List, [], ◌∷◌, ltb, arith,
}
use trading_chart_viewer.Common.Int.{pos, pos_part, ◌*ℤ◌, ◌/ℤ◌, ◌+ℤ◌, ◌-ℤ◌}
use trading_chart_viewer.Common.Double.{DoubleOps}
use trading_chart_viewer.Core.{truncating, truncating-IsTimeUtils}
use trading_chart_viewer.Domain.{Candle, align_down_ms}
use trading_chart_viewer.Domain.Label.{codes, interval_label}
use trading_chart_viewer.Storage.Record.{
  PriceData, strncpy, is_empty, is_valid_record, normalize_record,
}
use trading_chart_viewer.Storage.Manager.{DataFile, open_manager, read_all_records, save_records}
use trading_chart_viewer.Storage.Repository.Session.{
  Command, append_or_replace, append_all, run, run-Linked, run-reload,
}
use trading_chart_viewer.Storage.Repository.Load.{
  open_repository, load_historical_locked, load_loop, settle_interval, initial_layout,
  default_label,
}
use trading_chart_viewer.Storage.Repository.Interval.{clamp_interval_ms, parse_interval_ms}
use trading_chart_viewer.Storage.Repository.State.{Repository, refresh_metadata}
use trading_chart_viewer.Storage.Manager.Save.{IsUsable, upsert, save_records-upsert}
use trading_chart_viewer.Storage.Repository.Storable.{IsLayout}
use trading_chart_viewer.Storage.Repository.Linked.{Linked, closed}

abbrev pub naturals : DoubleOps ℕ
naturals = record {
  zero = 0;
  nan = 0;
  lowest = 0;
  largest = 1_000_000;
  of_int = λ n. pos_part n;
  add = λ a b. a + b;
  sub = λ a b. a - b;
  mul = λ a b. a * b;
  div = λ a b. a;
  lt = λ a b. ltb a b;
  is_finite = λ a. true;
}

abbrev pub candle_at : ℕ → ℕ → Bool → Candle ℕ
candle_at minute price shut = record {
  open_time = pos (minute * 60_000 + 17);
  close_time = pos 0;
  open_price = price;
  high = price + 2;
  low = price - 1;
  close = price + 1;
  base_volume = 5;
  quote_volume = 7;
  trades = pos 3;
  is_closed = shut;
}

abbrev pub garbage_record : PriceData ℕ
garbage_record = record {
  open_time = pos 99;
  open_price = 1;
  high_price = 1;
  low_price = 1;
  close_price = 1;
  volume = 1;
  close_time = pos 99;
  base_asset_volume = 1;
  number_of_trades = pos 1;
  taker_buy_volume = 1;
  taker_buy_base_asset_volume = 1;
  symbol = [];
  interval = [];
}

abbrev pub empty_file : DataFile ℕ
empty_file = record { exists = true; readable = true; writable = true; records = [] }

-- An open candle is replaced, rolled over, repeated late, and skipped over.
abbrev life : List (Command ℕ)
life =
    append_or_replace (candle_at 10 40 false)
    ∷ append_or_replace (candle_at 10 41 false)
    ∷ append_or_replace (candle_at 11 42 true)
    ∷ append_all (candle_at 13 45 false ∷ candle_at 12 44 true ∷ candle_at 9 1 true ∷ [])
    ∷ append_or_replace (candle_at 20 50 true)
    ∷ []

pub minute_layout :
    IsLayout truncating 1
      (open_repository truncating empty_file (codes "BTCUSDT") (pos 60_000)).layout
unfolding open_repository refresh_metadata load_historical_locked load_loop settle_interval
    initial_layout interval_label clamp_interval_ms default_label parse_interval_ms strncpy is_empty
    open_manager read_all_records ◌*ℤ◌ ◌+ℤ◌ ◌-ℤ◌
minute_layout = record {
  some_minutes = omega arith;
  minutes = refl;
  has_symbol = refl;
  has_label = refl;
  reads_back = refl;
}

pub empty_file-IsUsable : IsUsable empty_file
empty_file-IsUsable = record { exists = refl; readable = refl; writable = refl }

abbrev pub start : Repository ℕ
start = open_repository truncating empty_file (codes "BTCUSDT") (pos 60_000)

run-Linked_example : Linked (pos 60_000) (run truncating naturals garbage_record start life).candles
run-Linked_example =
    run-Linked truncating truncating-IsTimeUtils naturals garbage_record 1 empty_file
      (codes "BTCUSDT") (pos 60_000) empty_file-IsUsable refl minute_layout life (omega arith)

run-reload_example :
    let r = run truncating naturals garbage_record start life in
    let again = open_repository truncating r.file (codes "BTCUSDT") (pos 60_000) in
    (again.candles ≡ closed r.candles)
    × (again.metadata ≡ r.metadata)
    × (again.file ≡ r.file)
    × (again.has_gap ≡ false)
run-reload_example =
    run-reload truncating truncating-IsTimeUtils naturals garbage_record 1 empty_file
      (codes "BTCUSDT") (pos 60_000) empty_file-IsUsable refl minute_layout life (codes "BTCUSDT")
      (pos 60_000) (omega arith)

abbrev pub stored_at : ℕ → PriceData ℕ
stored_at minute = record garbage_record {
  open_time = pos (minute * 60_000);
  close_time = pos (minute * 60_000 + 59_999);
  symbol = codes "BTCUSDT";
  interval = codes "1m";
}

abbrev pub two_stored : DataFile ℕ
two_stored = record empty_file { records = stored_at 4 ∷ stored_at 5 ∷ [] }

save_records-upsert_example :
    save_records truncating garbage_record two_stored (stored_at 6 ∷ []) ≡ record two_stored {
      records = upsert two_stored.records (normalize_record truncating (stored_at 6));
    }
unfolding is_valid_record is_empty normalize_record align_down_ms ◌*ℤ◌ ◌/ℤ◌ ◌+ℤ◌ ◌-ℤ◌
save_records-upsert_example =
    save_records-upsert truncating garbage_record two_stored (stored_at 6)
      (record { exists = refl; readable = refl; writable = refl }) (refl, (refl, tt)) refl
