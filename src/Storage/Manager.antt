-- ===== src/Storage/Manager.antt =====
-- src/infra/storage/PriceDataManager.cpp. The data file is the list of its whole records, the
-- oldest first, and what the file system lets the program do with it.
pub mod Save
use trading_chart_viewer.Common.{
  ℕ, zero, suc, ◌-◌, Bool, true, false, ◌&&◌, ◌||◌, not, Option, none, some, List, [], ◌∷◌, ◌++◌,
  reverse, length, drop, back, set_back, if◌then◌else◌,
}
use trading_chart_viewer.Common.Int.{ℤ, ltb_ℤ, ◌==ℤ◌}
use trading_chart_viewer.Core.{TimeUtils}
use trading_chart_viewer.Storage.Record.{PriceData, blank, is_valid_record, normalize_record}

pub record DataFile (D : Type 0) : Type 0 where
  pub exists : Bool
  pub readable : Bool
  pub writable : Bool
  pub records : List (PriceData D)

-- What a call of `saveRecords` has decided so far.
pub record Pending (D : Type 0) : Type 0 where
  pub has_last : Bool
  pub last_persisted : PriceData D
  pub overwrite : Option (PriceData D)
  pub to_append : List (PriceData D)

module _ {D : Type 0} where
  -- `fileExists`, and the opening of an `ifstream`.
  unfoldable pub file_exists : DataFile D → Bool
  file_exists f = f.exists && f.readable

  -- `ofstream` without `app`: the file is made, or its content is dropped.
  unfoldable pub truncate : DataFile D → DataFile D
  truncate f = if f.writable then record f { exists = true; records = [] } else f

  -- The constructor.
  unfoldable pub open_manager : DataFile D → DataFile D
  unfolding file_exists truncate
  open_manager f = if file_exists f then f else truncate f

  unfoldable pub last_or : PriceData D → Option (PriceData D) → PriceData D
  last_or d none = d
  last_or d (some r) = r

  unfoldable pub read_last_record : PriceData D → DataFile D → PriceData D
  unfolding last_or blank file_exists
  read_last_record garbage f =
      if file_exists f then last_or (blank garbage) (back f.records) else blank garbage

  unfoldable pub read_all_records : DataFile D → List (PriceData D)
  unfolding file_exists
  read_all_records f = if file_exists f then f.records else []

  unfoldable pub read_last_n_records : ℕ → DataFile D → List (PriceData D)
  unfolding file_exists
  read_last_n_records n f = if file_exists f then drop (length f.records - n) f.records else []

  -- The first valid record of a list.
  unfoldable pub first_valid : List (PriceData D) → Option (PriceData D)
  first_valid [] = none
  first_valid (r ∷ rs) = let rest = first_valid rs in if is_valid_record r then some r else rest

  unfoldable pub open_times : Option (PriceData D) → Option (PriceData D) → Option (ℤ × ℤ)
  open_times none last = none
  open_times (some r) none = none
  open_times (some r) (some s) = some (r.open_time, s.open_time)

  unfoldable pub read_open_time_range : DataFile D → Option (ℤ × ℤ)
  unfolding file_exists first_valid open_times
  read_open_time_range f =
      if file_exists f
      then open_times (first_valid f.records) (first_valid (reverse f.records))
      else none

module _ {D : Type 0} (u : TimeUtils) where
  unfoldable pub append_valid : DataFile D → PriceData D → DataFile D
  append_valid f r = if is_valid_record r then record f { records = f.records ++ r ∷ [] } else f

  -- An `ofstream` with `app` makes the file where it does not exist.
  unfoldable pub save_record : DataFile D → PriceData D → DataFile D
  unfolding append_valid
  save_record f r =
      if is_valid_record r && f.writable
      then append_valid (record f { exists = true }) (normalize_record u r)
      else f

  unfoldable pub save_step : Pending D → PriceData D → Pending D
  save_step p r =
      let normalized = normalize_record u r in
      if not (is_valid_record normalized)
      then p
      else if p.has_last && (normalized.open_time ==ℤ p.last_persisted.open_time)
      then record p { overwrite = some normalized; last_persisted = normalized }
      else if not p.has_last || ltb_ℤ p.last_persisted.open_time normalized.open_time
      then record p {
        to_append = p.to_append ++ normalized ∷ [];
        last_persisted = normalized;
        has_last = true;
      }
      else p

  unfoldable pub save_loop : Pending D → List (PriceData D) → Pending D
  unfolding save_step
  save_loop p [] = p
  save_loop p (r ∷ rs) = save_loop (save_step p r) rs

  unfoldable pub overwrite_last : Option (PriceData D) → List (PriceData D) → List (PriceData D)
  overwrite_last none rs = rs
  overwrite_last (some r) rs = set_back rs r

  unfoldable pub write_pending : DataFile D → Pending D → DataFile D
  unfolding overwrite_last
  write_pending f p = record f { records = overwrite_last p.overwrite f.records ++ p.to_append }

  unfoldable pub start_pending : PriceData D → DataFile D → Pending D
  unfolding read_last_record
  start_pending garbage f =
      let last_record = read_last_record garbage f in
      record {
        has_last = is_valid_record last_record;
        last_persisted = last_record;
        overwrite = none;
        to_append = [];
      }

  -- The body of `saveRecords` on a file that is open.
  unfoldable pub save_open : PriceData D → DataFile D → List (PriceData D) → DataFile D
  unfolding write_pending save_loop start_pending
  save_open garbage f rs = write_pending f (save_loop (start_pending garbage f) rs)

  -- A file that cannot be opened for reading and writing is made anew first.
  unfoldable pub open_for_update : DataFile D → DataFile D
  unfolding file_exists truncate
  open_for_update f = if file_exists f && f.writable then f else truncate f

  unfoldable pub save_records : PriceData D → DataFile D → List (PriceData D) → DataFile D
  unfolding save_open open_for_update file_exists
  save_records garbage f [] = f
  save_records garbage f (r ∷ rs) =
      let opened = open_for_update f in
      if file_exists opened && opened.writable then save_open garbage opened (r ∷ rs) else opened
