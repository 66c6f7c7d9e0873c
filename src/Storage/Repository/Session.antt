-- ===== src/Storage/Repository/Session.antt =====
-- A life of the repository: opened over an empty file, then used through its methods.
use trading_chart_viewer.Common.{ℕ, ◌*◌, ◌≡◌, refl, ap, true, false, List, [], ◌∷◌, All}
use trading_chart_viewer.Common.Int.{ℤ, pos, ◌≤ℤ◌}
use trading_chart_viewer.Common.Double.{DoubleOps}
use trading_chart_viewer.Core.{TimeUtils, IsTimeUtils}
use trading_chart_viewer.Domain.{Candle, no_metadata}
use trading_chart_viewer.Domain.Label.{Text}
use trading_chart_viewer.Storage.Record.{PriceData}
use trading_chart_viewer.Storage.Manager.{DataFile, open_manager, read_all_records}
use trading_chart_viewer.Storage.Manager.Save.{IsUsable}
use trading_chart_viewer.Storage.Repository.State.{
  Layout, Repository, refresh_metadata, metadata_loop,
}
use trading_chart_viewer.Storage.Repository.Append.{append_or_replace_locked, seal_open_tail_if_any}
use trading_chart_viewer.Storage.Repository.Batch.{append_batch, sort_by_open}
use trading_chart_viewer.Storage.Repository.Load.{
  load_historical_locked, load_loop, open_repository, initial_layout,
}
use trading_chart_viewer.Storage.Repository.Storable.{IsLayout}
use trading_chart_viewer.Storage.Repository.Linked.{Linked, closed}
use trading_chart_viewer.Storage.Repository.Invariant.{Inv}
use trading_chart_viewer.Storage.Repository.Methods.{
  append_or_replace_locked-Inv, append_batch-Inv, seal_open_tail_if_any-Inv,
}
use trading_chart_viewer.Storage.Repository.Reload.{open_repository-reload}

-- The calls of the public methods that change the state.
pub data Command (D : Type 0) : Type 0 where
  append_or_replace : Candle D → Command D
  append_all : List (Candle D) → Command D
  seal : Command D

-- The trade counts that the call brings are not negative.
abbrev pub Counted : {D : Type 0} → Command D → Type 0
Counted (append_or_replace c) = pos 0 ≤ℤ c.trades
Counted (append_all cs) = All (λ c. pos 0 ≤ℤ c.trades) cs
Counted seal = Unit

module _ {D : Type 0} (u : TimeUtils) (ops : DoubleOps D) (garbage : PriceData D) where
  unfoldable pub step : Repository D → Command D → Repository D
  step r (append_or_replace c) = (append_or_replace_locked u ops garbage r c).1
  step r (append_all cs) = (append_batch u ops garbage r cs).1
  step r seal = (seal_open_tail_if_any u ops garbage r).1

  unfoldable pub run : Repository D → List (Command D) → Repository D
  run r [] = r
  run r (c ∷ cs) = run (step r c) cs

module _ {D : Type 0} (u : TimeUtils) (times : IsTimeUtils u) (ops : DoubleOps D)
    (garbage : PriceData D) (k : ℕ) (l : Layout) (good : IsLayout u k l) where
  step-Inv :
      (r : Repository D) (c : Command D)
      → Counted c
      → Inv u ops k l r
      → Inv u ops k l (step u ops garbage r c)
  unfolding step
  step-Inv r (append_or_replace c) h v =
      append_or_replace_locked-Inv u times ops garbage k l good r c v h
  step-Inv r (append_all cs) h v = append_batch-Inv u times ops garbage k l good r cs v h
  step-Inv r seal h v = seal_open_tail_if_any-Inv u times ops garbage k l good r v

  pub run-Inv :
      (r : Repository D) (cs : List (Command D))
      → All Counted cs
      → Inv u ops k l r
      → Inv u ops k l (run u ops garbage r cs)
  unfolding run
  run-Inv r [] h v = v
  run-Inv r (c ∷ cs) h v = run-Inv (step u ops garbage r c) cs h.1 (step-Inv r c h.0 v)

module _ {D : Type 0} (u : TimeUtils) (times : IsTimeUtils u) (ops : DoubleOps D)
    (garbage : PriceData D) (k : ℕ) (f : DataFile D) (symbol : Text) (interval : ℤ)
    (usable : IsUsable f) (none_yet : f.records ≡ [])
    (good : IsLayout u k (open_repository u f symbol interval).layout) where
  abbrev opened : Repository D
  opened = open_repository u f symbol interval

  same_file : open_manager f ≡ f
  unfolding open_manager
  same_file = rw (usable.exists, usable.readable) refl

  nothing_read : read_all_records (open_manager f) ≡ []
  unfolding read_all_records
  nothing_read = rw (same_file, usable.exists, usable.readable, none_yet) refl

  no_candles : opened.candles ≡ []
  unfolding open_repository refresh_metadata load_historical_locked load_loop sort_by_open
  no_candles =
      ap (λ xs. sort_by_open (load_loop u (initial_layout u symbol interval) [] xs).1) nothing_read

  no_metadata_yet : opened.metadata ≡ metadata_loop true no_metadata opened.candles
  unfolding open_repository refresh_metadata
  no_metadata_yet = refl

  file_kept : opened.file ≡ f
  unfolding open_repository refresh_metadata load_historical_locked
  file_kept = same_file

  -- A repository that is opened over an empty file satisfies the invariant.
  pub open_repository-Inv : Inv u ops k opened.layout opened
  open_repository-Inv = record {
    kept = record {
      same_layout = refl;
      usable = rw file_kept usable;
      linked = rw no_candles tt;
      storable = rw no_candles tt;
      on_disk = rw (file_kept, no_candles) none_yet;
    };
    counted = no_metadata_yet;
  }

  -- Let the library for times be as assumed, and let the repository be opened over an existing
  -- empty file that can be read and written, with an interval of whole minutes, and with a symbol
  -- and a label that are not empty in a record and a label that reads back as the interval. After
  -- any calls of its methods whose trade counts are not negative, each candle of the series but the
  -- first opens one interval after the one before it, and all but the last are closed.
  pub run-Linked :
      (cs : List (Command D))
      → All Counted cs
      → Linked (pos (k * 60_000)) (run u ops garbage opened cs).candles
  run-Linked cs h =
      (run-Inv u times ops garbage k opened.layout good opened cs h open_repository-Inv).kept.linked

  -- Let the library for times be as assumed, and let the repository be opened over an existing
  -- empty file that can be read and written, with an interval of whole minutes, and with a symbol
  -- and a label that are not empty in a record and a label that reads back as the interval. After
  -- any calls of its methods whose trade counts are not negative, opening it again over its file,
  -- with whatever symbol and interval, gives exactly the closed candles with every field, in order,
  -- the same metadata, the same file and no gap.
  pub run-reload :
      (cs : List (Command D)) (symbol' : Text) (interval' : ℤ)
      → All Counted cs
      → let r = run u ops garbage opened cs in
        let again = open_repository u r.file symbol' interval' in
        (again.candles ≡ closed r.candles)
        × (again.metadata ≡ r.metadata)
        × (again.file ≡ r.file)
        × (again.has_gap ≡ false)
  run-reload cs symbol' interval' h =
      open_repository-reload u times ops k opened.layout good (run u ops garbage opened cs) symbol'
        interval' (run-Inv u times ops garbage k opened.layout good opened cs h open_repository-Inv)
