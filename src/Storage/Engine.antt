-- ===== src/Storage/Engine.antt =====
-- src/infra/storage/DatabaseEngine.cpp: the historical store, a `std::map` from opening times to
-- records, as the list of its entries in the order of the keys; taking records in, and looking them
-- up. The trace of missed lookups and the messages are left out, and so is what stays in the output of
-- a span that fails: the result is `none`.
pub mod Order
pub mod Span
pub mod Cache
pub mod Updates
pub mod Latest
pub mod Running
pub mod Turns
pub mod Held
pub mod Reaching
pub mod Backed
pub mod Tests
use trading_chart_viewer.Common.{
  ℕ, zero, suc, Bool, true, false, ◌&&◌, ◌||◌, not, Option, none, some, List, [], ◌∷◌, reverse,
  length, back, ltb, ◌==◌, if◌then◌else◌,
}
use trading_chart_viewer.Common.Int.{ℤ, pos, pos_part, ◌+ℤ◌, ◌-ℤ◌, ltb_ℤ, leb_ℤ, ◌==ℤ◌}
use trading_chart_viewer.Core.{TimeUtils}
use trading_chart_viewer.Storage.Record.{PriceData, is_valid_record, normalize_record}

abbrev pub Store : Type 0 → Type 0
Store D = List (ℤ × PriceData D)

pub record Ohlc (D : Type 0) : Type 0 where
  pub open_time_ms : ℤ
  pub open_price : D
  pub high : D
  pub low : D
  pub close : D

abbrev pub warmup_candles : ℕ
warmup_candles = 200

-- The members that belong to the historical store.
pub record History (D : Type 0) : Type 0 where
  pub entries : Store D
  pub data_ready : Bool
  pub readiness_anchor : ℤ
  pub readiness_announced : Bool
  pub min_open_time : ℤ
  pub max_open_time : ℤ

abbrev pub first_or : ℤ → List ℤ → ℤ
first_or t [] = t
first_or t (k ∷ ks) = k

unfoldable pub consecutive_loop : TimeUtils → ℕ → ℤ → List ℤ → Bool
consecutive_loop u zero expected ks = true
consecutive_loop u (suc required) expected [] = false
consecutive_loop u (suc required) expected (k ∷ ks) =
    let more = consecutive_loop u required (expected -ℤ u.millis_per_minute) ks in
    if k ==ℤ expected then more else false

module _ {D : Type 0} where
  unfoldable pub make_ohlc : PriceData D → Ohlc D
  make_ohlc r = record {
    open_time_ms = r.open_time;
    open_price = r.open_price;
    high = r.high_price;
    low = r.low_price;
    close = r.close_price;
  }

  -- `map[key] = r` and `map.find(key)`.
  unfoldable pub put : ℤ → PriceData D → Store D → Store D
  put key r [] = (key, r) ∷ []
  put key r ((k, s) ∷ rest) =
      let later = put key r rest in
      if ltb_ℤ key k
      then (key, r) ∷ (k, s) ∷ rest
      else if key ==ℤ k
      then (key, r) ∷ rest
      else (k, s) ∷ later

  unfoldable pub find : ℤ → Store D → Option (PriceData D)
  find key [] = none
  find key ((k, s) ∷ rest) = let later = find key rest in if key ==ℤ k then some s else later

  -- The entries from the iterator of `map.find(key)` on, none where it is the end.
  unfoldable pub entries_from : ℤ → Store D → Store D
  entries_from key [] = []
  entries_from key ((k, s) ∷ rest) =
      let later = entries_from key rest in if key ==ℤ k then (k, s) ∷ rest else later

  unfoldable pub cons_ohlc : Ohlc D → Option (List (Ohlc D)) → Option (List (Ohlc D))
  cons_ohlc o none = none
  cons_ohlc o (some os) = some (o ∷ os)

  -- The walk over `count` entries, one a `step` from the other.
  unfoldable pub span_loop : (ℤ → ℤ) → ℕ → ℤ → Store D → Option (List (Ohlc D))
  span_loop next zero expected entries = some []
  span_loop next (suc count) expected [] = none
  span_loop next (suc count) expected ((k, r) ∷ rest) =
      let more = span_loop next count (next expected) rest in
      if k ==ℤ expected then cons_ohlc (make_ohlc r) more else none

  abbrev pub keys_of : Store D → List ℤ
  keys_of [] = []
  keys_of ((k, r) ∷ rest) = k ∷ keys_of rest

  abbrev pub values_of : Store D → List (PriceData D)
  values_of [] = []
  values_of ((k, r) ∷ rest) = r ∷ values_of rest

  abbrev pub reversed : Option (List (Ohlc D)) → Option (List (Ohlc D))
  reversed none = none
  reversed (some os) = some (reverse os)

  unfoldable pub get_open_time_range : History D → Option (ℤ × ℤ)
  get_open_time_range h =
      if leb_ℤ h.min_open_time (pos 0)
        || (leb_ℤ h.max_open_time (pos 0) || ltb_ℤ h.max_open_time h.min_open_time)
      then none
      else some (h.min_open_time, h.max_open_time)

  unfoldable pub store_all : Store D → List (PriceData D) → Store D
  store_all m [] = m
  store_all m (r ∷ rs) = store_all (put r.open_time r m) rs

module _ {D : Type 0} (u : TimeUtils) where
  -- The records that are valid, the last one of each time, in order.
  unfoldable pub deduplicate : Store D → List (PriceData D) → Store D
  deduplicate m [] = m
  deduplicate m (r ∷ rs) =
      let n = normalize_record u r in
      deduplicate (if is_valid_record n then put n.open_time n m else m) rs

  unfoldable pub normalize_records : List (PriceData D) → List (PriceData D)
  normalize_records rs = values_of (deduplicate [] rs)

  -- The result, and the anchor, the last time, where there is one.
  unfoldable pub has_consecutive_candles : ℕ → Store D → ℤ → Bool × ℤ
  has_consecutive_candles zero m anchor = (true, anchor)
  has_consecutive_candles (suc required) m anchor = from_last (reverse (keys_of m))
    where
      from_last : List ℤ → Bool × ℤ
      from_last [] = (false, anchor)
      from_last (k ∷ ks) = (consecutive_loop u (suc required) (u.floor_to_minute_ms k) (k ∷ ks), k)

  -- `ingestRecords` of records that are normalised.
  unfoldable pub ingest_normalized : History D → List (PriceData D) → History D
  ingest_normalized h [] = h
  ingest_normalized h (r ∷ rs) =
      let entries = store_all h.entries (r ∷ rs) in
      let (window, anchor) = has_consecutive_candles warmup_candles entries (pos 0) in
      let became_ready = not h.data_ready && window in
      let announced = window && h.readiness_announced in
      record {
        entries = entries;
        data_ready = window;
        readiness_anchor = if window then anchor else pos 0;
        readiness_announced = announced || became_ready;
        min_open_time = first_or h.min_open_time (keys_of entries);
        max_open_time = first_or h.max_open_time (reverse (keys_of entries));
      }

  unfoldable pub ingest_records : History D → List (PriceData D) → History D
  ingest_records h rs = ingest_normalized h (normalize_records rs)

  unfoldable pub try_get_ohlc : History D → ℤ → Option (Ohlc D)
  try_get_ohlc h t = found (find (u.floor_to_minute_ms t) h.entries)
    where
      found : Option (PriceData D) → Option (Ohlc D)
      found none = none
      found (some r) = some (make_ohlc r)

  unfoldable pub try_get_ohlc_span : History D → ℤ → ℤ → Option (List (Ohlc D))
  try_get_ohlc_span h start count =
      let aligned = u.floor_to_minute_ms start in
      if leb_ℤ count (pos 0)
      then none
      else span_loop (λ t. t +ℤ u.millis_per_minute) (pos_part count) aligned
          (entries_from aligned h.entries)

  unfoldable pub try_get_latest_span : History D → ℤ → Option (List (Ohlc D))
  try_get_latest_span h count =
      let latest = reverse h.entries in
      if leb_ℤ count (pos 0)
      then none
      else reversed (
          span_loop (λ t. t -ℤ u.millis_per_minute) (pos_part count)
            (u.floor_to_minute_ms (first_or (pos 0) (keys_of latest))) latest)

  unfoldable pub is_timestamp_within_range : History D → ℤ → Bool
  is_timestamp_within_range h t =
      let aligned = u.floor_to_minute_ms t in within aligned (get_open_time_range h)
    where
      within : ℤ → Option (ℤ × ℤ) → Bool
      within a none = false
      within a (some (low, high)) = leb_ℤ low a && leb_ℤ a high
