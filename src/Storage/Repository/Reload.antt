-- ===== src/Storage/Repository/Reload.antt =====
-- Opening the repository again over the file that it left.
use trading_chart_viewer.Common.{
  ℕ, ◌*◌, ◌≡◌, refl, ap, sym, ◌∙◌, Bool, true, false, ◌&&◌, List, [], ◌∷◌, ◌++◌, map, back, front,
  front-back, All, All-keep, arith, Bool-cases, Option-cases, inl, inr, back-none, if◌then◌else◌,
}
use mathlib.Core.List.{append-nil, append_assoc}
use trading_chart_viewer.Common.Int.{ℤ, pos, ◌<ℤ◌, lt→ltb_ℤ, ge→ltb_ℤ, int_laws}
use trading_chart_viewer.Common.Double.{DoubleOps}
use trading_chart_viewer.Core.{TimeUtils, IsTimeUtils}
use trading_chart_viewer.Domain.{Candle, RepoMetadata, no_metadata}
use trading_chart_viewer.Domain.Label.{Text}
use trading_chart_viewer.Storage.Record.{PriceData, is_valid_record, strncpy}
use trading_chart_viewer.Storage.Manager.{DataFile, open_manager, read_all_records}
use trading_chart_viewer.Storage.Manager.Save.{IsUsable}
use trading_chart_viewer.Storage.Repository.State.{
  Layout, Repository, to_candle, to_price_data, metadata_loop, refresh_metadata, count_closed,
}
use trading_chart_viewer.Storage.Repository.Batch.{sort_by_open}
use trading_chart_viewer.Storage.Repository.Load.{
  adopt_interval, load_loop, load_historical_locked, open_repository, initial_layout,
}
use trading_chart_viewer.Storage.Repository.Storable.{
  IsLayout, IsStorable, disk_record, disk_record_lem, disk_record-valid, to_candle-disk_record,
}
use trading_chart_viewer.Storage.Repository.Linked.{
  Linked, closed, closed-front, closed-sealed, closed-append_open,
}
use trading_chart_viewer.Storage.Repository.Invariant.{Inv}

module _ {D : Type 0} where
  Linked-front : (step : ℤ) (cs : List (Candle D)) → Linked step cs → Linked step (front cs)
  unfolding front
  Linked-front step [] h = tt
  Linked-front step (c ∷ []) h = tt
  Linked-front step (c ∷ d ∷ []) h = tt
  Linked-front step (c ∷ d ∷ e ∷ r) h = (h.0, h.1, Linked-front step (d ∷ e ∷ r) h.2)

  Linked-closed : (step : ℤ) (cs : List (Candle D)) → Linked step cs → Linked step (closed cs)
  Linked-closed step cs h = elim (Option-cases (back cs)) [
    | inl e ↦ rw (back-none cs e) tt
    | inr (l, e) ↦ elim (Bool-cases l.is_closed) [
      | inl sealed ↦ rw (closed-sealed step cs l h e sealed) h
      | inr pending ↦
          rw
            (
              ap closed (front-back cs l e),
              closed-append_open (front cs) l pending,
              closed-front step cs h,
            )
            (Linked-front step cs h)
    ]
  ]

  -- A series without holes is sorted already.
  pub sort_by_open-Linked :
      (step : ℤ) (cs : List (Candle D)) → pos 0 <ℤ step → Linked step cs → sort_by_open cs ≡ cs
  unfolding sort_by_open
  sort_by_open-Linked step [] p h = refl
  sort_by_open-Linked step (c ∷ []) p h = refl
  sort_by_open-Linked step (c ∷ d ∷ r) p h =
      rw (sort_by_open-Linked step (d ∷ r) p h.2)
        (rw (ge→ltb_ℤ d.open_time c.open_time (rw h.1 (omega (int_laws, p)))) refl)

  metadata_loop-closed :
      (first : Bool) (m : RepoMetadata) (cs : List (Candle D))
      → metadata_loop first m (closed cs) ≡ metadata_loop first m cs
  unfolding metadata_loop
  metadata_loop-closed first m [] = refl
  metadata_loop-closed first m (c ∷ cs) = elim (Bool-cases c.is_closed) [
    | inl e ↦ rw e (metadata_loop-closed (first && false) (count_closed first m c) cs)
    | inr e ↦
        rw e (metadata_loop-closed first m cs ∙ ap (λ b. metadata_loop b m cs) (and_true first))
  ]
    where
      and_true : (b : Bool) → b ≡ (b && true)
      and_true true = refl
      and_true false = refl

  to_candle-interval :
      (l m : Layout) (r : PriceData D)
      → l.interval_ms ≡ m.interval_ms
      → to_candle l r ≡ to_candle m r
  unfolding to_candle
  to_candle-interval l m r e = rw e refl

module _ {D : Type 0} (u : TimeUtils) (times : IsTimeUtils u) (ops : DoubleOps D) (k : ℕ)
    (l : Layout) (good : IsLayout u k l) where
  record_label :
      (c : Candle D)
      → IsStorable k c
      → (disk_record u ops l c).interval ≡ strncpy 7 l.interval_label
  unfolding to_price_data
  record_label c s = rw (disk_record_lem u times ops k l good c s)

  -- A record's label brings the interval back.
  adopt_interval-record :
      (m : Layout) (c : Candle D)
      → IsStorable k c
      → (adopt_interval u m (disk_record u ops l c).interval).interval_ms ≡ l.interval_ms
  unfolding adopt_interval
  adopt_interval-record m c s =
      rw
        (
          record_label c s,
          good.has_label,
          good.reads_back,
          good.minutes,
          lt→ltb_ℤ (pos 0) (pos (k * 60_000)) (omega (arith, good.some_minutes)),
        )
        refl

  load_loop-valid :
      (m : Layout) (acc : List (Candle D)) (x : PriceData D) (xs : List (PriceData D))
      → is_valid_record x ≡ true
      → let adopted = adopt_interval u m x.interval in
        load_loop u m acc (x ∷ xs) ≡ load_loop u adopted (acc ++ to_candle adopted x ∷ []) xs
  unfolding load_loop
  load_loop-valid m acc x xs e =
      let adopted = adopt_interval u m x.interval in
      ap
        (λ b.
          load_loop u (if b then adopted else m)
            (if b then acc ++ to_candle adopted x ∷ [] else acc) xs)
        e

  read_back :
      (m : Layout) (x : Candle D)
      → IsStorable k x
      → x.is_closed ≡ true
      → to_candle (adopt_interval u m (disk_record u ops l x).interval) (disk_record u ops l x) ≡ x
  read_back m x s c =
      to_candle-interval (adopt_interval u m (disk_record u ops l x).interval) l
        (disk_record u ops l x) (adopt_interval-record m x s)
      ∙ to_candle-disk_record u times ops k l good x s
      ∙ ap (λ b. record x { is_closed = b }) (sym c)

  load_loop-stored :
      (m : Layout) (acc cs : List (Candle D))
      → All (IsStorable k) cs
      → All (λ c. c.is_closed ≡ true) cs
      → (load_loop u m acc (map (disk_record u ops l) cs)).1 ≡ acc ++ cs
  unfolding load_loop
  load_loop-stored m acc [] h c = sym (append-nil acc)
  load_loop-stored m acc (x ∷ cs) h c =
      let rec = disk_record u ops l x in
      let adopted = adopt_interval u m rec.interval in
      ap (λ (p : Layout × List (Candle D)). p.1)
        (load_loop-valid m acc rec (map (disk_record u ops l) cs)
          (disk_record-valid u times ops k l good x h.0))
      ∙ load_loop-stored adopted (acc ++ to_candle adopted rec ∷ []) cs h.1 c.1
      ∙ append_assoc acc (to_candle adopted rec ∷ []) cs
      ∙ ap (λ y. acc ++ y ∷ cs) (read_back m x h.0 c.0)

  closed-All : (cs : List (Candle D)) → All (λ c. c.is_closed ≡ true) (closed cs)
  closed-All [] = tt
  closed-All (c ∷ cs) = elim (Bool-cases c.is_closed) [
    | inl e ↦ rw e (refl, closed-All cs)
    | inr e ↦ rw e (closed-All cs)
  ]

  opened : (f : DataFile D) → IsUsable f → open_manager f ≡ f
  unfolding open_manager
  opened f h = rw (h.exists, h.readable) refl

  read_all : (f : DataFile D) → IsUsable f → read_all_records f ≡ f.records
  unfolding read_all_records
  read_all f h = rw (h.exists, h.readable) refl

  in_order :
      (r : Repository D) → Inv u ops k l r → sort_by_open (closed r.candles) ≡ closed r.candles
  in_order r v =
      sort_by_open-Linked (pos (k * 60_000)) (closed r.candles) (omega (arith, good.some_minutes))
        (Linked-closed _ r.candles v.kept.linked)

  -- Whatever symbol and interval it is opened with, a repository over the file that another one
  -- left has exactly the closed candles of the other, in the same order and with every field, and
  -- the same metadata; the file is unchanged.
  pub open_repository-reload :
      (r : Repository D) (symbol : Text) (interval : ℤ)
      → Inv u ops k l r
      → let again = open_repository u r.file symbol interval in
        (again.candles ≡ closed r.candles)
        × (again.metadata ≡ r.metadata)
        × (again.file ≡ r.file)
        × (again.has_gap ≡ false)
  unfolding open_repository refresh_metadata load_historical_locked
  open_repository-reload r symbol interval v =
      let reloaded : (load_loop u (initial_layout u symbol interval) [] r.file.records).1
          ≡ closed r.candles =
        ap (λ xs. (load_loop u (initial_layout u symbol interval) [] xs).1) v.kept.on_disk
        ∙ load_loop-stored (initial_layout u symbol interval) [] (closed r.candles)
            (All-keep (IsStorable k) _ r.candles v.kept.storable) (closed-All r.candles) in
      rw (opened r.file v.kept.usable, read_all r.file v.kept.usable, reloaded, in_order r v)
        (refl, metadata_loop-closed true no_metadata r.candles ∙ sym v.counted, refl, refl)
