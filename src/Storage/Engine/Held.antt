-- ===== src/Storage/Engine/Held.antt =====
-- src/infra/storage/DatabaseEngine.cpp: which times the store has, and which records are owed to it.
use trading_chart_viewer.Common.{
  ◌*◌, ◌≡◌, refl, ap, sym, ◌∙◌, Bool, true, false, ◌||◌, List, [], ◌∷◌, ◌++◌, reverse, All, arith,
  if_split,
}
use trading_chart_viewer.Common.Int.{ℤ, pos, ◌==ℤ◌, ==ℤ-refl, ltb_ℤ, leb_ℤ, ◌+ℤ◌, ◌-ℤ◌}
use trading_chart_viewer.Core.{TimeUtils, IsTimeUtils}
use trading_chart_viewer.Storage.Record.{PriceData, is_valid_record, normalize_record}
use trading_chart_viewer.Storage.Engine.{
  History, Store, put, values_of, ingest_records, ingest_normalized, normalize_records, deduplicate,
  store_all,
}
use trading_chart_viewer.Storage.Engine.Cache.{
  Task, save_closed, save_page, stamp, ingest_one, ingest, copy_newest, install, call_limits,
  call_cache, call_full_data, newest,
}
use trading_chart_viewer.Storage.Engine.Order.{Minutely, IsStore, floor-Minutely}
use trading_chart_viewer.Storage.Engine.Latest.{All-take, All-reverse}

pub All-map :
    {A : Type 0} (P Q : A → Type 0) (f : (x : A) → P x → Q x) (xs : List A) → All P xs → All Q xs
All-map P Q f [] h = tt
All-map P Q f (x ∷ xs) h = (f x h.0, All-map P Q f xs h.1)

floor_again :
    (u : TimeUtils) (times : IsTimeUtils u) (t : ℤ) → Minutely t → u.floor_to_minute_ms t ≡ t
floor_again u times t (n, e) =
    ap u.floor_to_minute_ms e ∙ times.floors (n * 60_000) ∙ ap pos (omega arith) ∙ sym e

module _ {D : Type 0} where
  -- The store has a record of the time.
  abbrev pub has : ℤ → Store D → Bool
  has t [] = false
  has t (x ∷ m) = (t ==ℤ x.0) || has t m

  -- A thread has still to put a live record of the time into the store.
  abbrev pub owes : ℤ → Task D → Bool
  owes t (ingest_one r) = t ==ℤ r.open_time
  owes t (save_closed r) = false
  owes t (save_page rs) = false
  owes t (stamp k) = false
  owes t (ingest rs) = false
  owes t copy_newest = false
  owes t (install rs) = false
  owes t (call_limits observers highest lowest) = false
  owes t call_cache = false
  owes t call_full_data = false

  abbrev pub owed_by : ℤ → List (Task D) → Bool
  owed_by t [] = false
  owed_by t (x ∷ xs) = owes t x || owed_by t xs

  abbrev pub owed : ℤ → List (List (Task D)) → Bool
  owed t [] = false
  owed t (thread ∷ others) = owed_by t thread || owed t others

  pub owed_by-append :
      (t : ℤ) (xs ys : List (Task D)) → owed_by t (xs ++ ys) ≡ (owed_by t xs || owed_by t ys)
  owed_by-append t [] ys = refl
  owed_by-append t (x ∷ xs) ys = ground (arith, owed_by-append t xs ys)

  abbrev pub Grows : Store D → Store D → Type 0
  Grows m n = (t : ℤ) → has t m ≡ true → has t n ≡ true

  put-Grows : (k : ℤ) (r : PriceData D) (m : Store D) → Grows m (put k r m)
  unfolding put
  put-Grows k r [] t h = cc
  put-Grows k r ((j, s) ∷ m) t h =
      if_split (λ (x : Store D). has t x ≡ true) (ltb_ℤ k j) _ _ (λ e. ground (arith, h))
        (λ e.
          if_split (λ (x : Store D). has t x ≡ true) (k ==ℤ j) _ _ (λ f. ground (arith, h, f))
            (λ f. ground (arith, h, put-Grows k r m t)))

  put-has : (k : ℤ) (r : PriceData D) (m : Store D) → has k (put k r m) ≡ true
  unfolding put
  put-has k r [] = ground (arith, ==ℤ-refl k)
  put-has k r ((j, s) ∷ m) =
      if_split (λ (x : Store D). has k x ≡ true) (ltb_ℤ k j) _ _ (λ e. ground (arith, ==ℤ-refl k))
        (λ e.
          if_split (λ (x : Store D). has k x ≡ true) (k ==ℤ j) _ _ (λ f. ground (arith, ==ℤ-refl k))
            (λ f. ground (arith, put-has k r m)))

  store_all-Grows : (rs : List (PriceData D)) (m : Store D) → Grows m (store_all m rs)
  unfolding store_all
  store_all-Grows [] m t h = h
  store_all-Grows (r ∷ rs) m t h =
      store_all-Grows rs (put r.open_time r m) t (put-Grows r.open_time r m t h)

  values-has :
      (m : Store D)
      → All (λ x. x.1.open_time ≡ x.0) m
      → All (λ r. has r.open_time m ≡ true) (values_of m)
  values-has [] own = tt
  values-has (x ∷ m) own = (
    ground (arith, ==ℤ-refl x.0, own.0),
    All-map (λ r. has r.open_time m ≡ true) (λ r. has r.open_time (x ∷ m) ≡ true)
        (λ r h. ground (arith, h)) (values_of m) (values-has m own.1),
  )

  pub newest-has : (m : Store D) → IsStore m → All (λ r. has r.open_time m ≡ true) (newest m)
  newest-has m v =
      let P = λ (r : PriceData D). has r.open_time m ≡ true in
      All-take P 20 (reverse (values_of m)) (All-reverse P (values_of m) (values-has m v.own_key))

module _ {D : Type 0} (u : TimeUtils) (times : IsTimeUtils u) where
  pub ingest-Grows :
      (h : History D) (rs : List (PriceData D)) → Grows h.entries (ingest_records u h rs).entries
  unfolding ingest_records ingest_normalized
  ingest-Grows h rs = normalized (normalize_records u rs)
    where
      normalized : (ns : List (PriceData D)) → Grows h.entries (ingest_normalized u h ns).entries
      normalized [] t e = e
      normalized (n ∷ ns) t e = store_all-Grows (n ∷ ns) h.entries t e

  normalize_aligned :
      (r : PriceData D) (t : ℤ)
      → Minutely t
      → leb_ℤ t (pos 0) ≡ false
      → let n = record r { open_time = t; close_time = t +ℤ u.millis_per_minute -ℤ pos 1 } in
        normalize_record u n ≡ n
  unfolding normalize_record
  normalize_aligned r t aligned later = rw (floor_again u times t aligned, later) refl

  pub normalize_again :
      (r : PriceData D)
      → is_valid_record (normalize_record u r) ≡ true
      → normalize_record u (normalize_record u r) ≡ normalize_record u r
  unfolding normalize_record is_valid_record
  normalize_again r =
      let t = u.floor_to_minute_ms r.open_time in
      if_split (λ (n : PriceData D). is_valid_record n ≡ true → normalize_record u n ≡ n)
        (leb_ℤ t (pos 0)) _ _ (λ e v. absurd (ground (arith, v)))
        (λ e v. normalize_aligned r t (floor-Minutely u times r.open_time e) e)

  -- A normalised record is put into the store as it is.
  pub ingest_one-has :
      (h : History D) (r : PriceData D)
      → is_valid_record r ≡ true
      → normalize_record u r ≡ r
      → has r.open_time (ingest_records u h (r ∷ [])).entries ≡ true
  unfolding ingest_records normalize_records deduplicate ingest_normalized store_all put
  ingest_one-has h r v n = rw (n, v) (put-has r.open_time r h.entries)

  -- What a task is about to do is right for the store.
  abbrev pub IsSound : Store D → Task D → Type 0
  IsSound m (ingest_one r) = (is_valid_record r ≡ true) × (normalize_record u r ≡ r)
  IsSound m (install rs) = All (λ r. has r.open_time m ≡ true) rs
  IsSound m (save_closed r) = Unit
  IsSound m (save_page rs) = Unit
  IsSound m (stamp t) = Unit
  IsSound m (ingest rs) = Unit
  IsSound m copy_newest = Unit
  IsSound m (call_limits observers highest lowest) = Unit
  IsSound m call_cache = Unit
  IsSound m call_full_data = Unit

  pub IsSound-Grows : (m n : Store D) (t : Task D) → Grows m n → IsSound m t → IsSound n t
  IsSound-Grows m n (ingest_one r) g h = h
  IsSound-Grows m n (install rs) g h =
      All-map (λ r. has r.open_time m ≡ true) (λ r. has r.open_time n ≡ true) (λ r. g r.open_time)
        rs h
  IsSound-Grows m n (save_closed r) g h = tt
  IsSound-Grows m n (save_page rs) g h = tt
  IsSound-Grows m n (stamp t) g h = tt
  IsSound-Grows m n (ingest rs) g h = tt
  IsSound-Grows m n copy_newest g h = tt
  IsSound-Grows m n (call_limits observers highest lowest) g h = tt
  IsSound-Grows m n call_cache g h = tt
  IsSound-Grows m n call_full_data g h = tt
