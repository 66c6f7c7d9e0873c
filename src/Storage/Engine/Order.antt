-- ===== src/Storage/Engine/Order.antt =====
-- The store keeps its keys in order, each a time of a whole minute.
use trading_chart_viewer.Common.{
  ℕ, ◌*◌, ◌/◌, ◌≡◌, refl, ◌∙◌, false, List, [], ◌∷◌, All, arith, Bool-cases, inl, inr,
}
use trading_chart_viewer.Common.Int.{ℤ, pos, negsuc, ◌<ℤ◌, ◌≤ℤ◌, ltb_ℤ, leb_ℤ, ◌==ℤ◌}
use trading_chart_viewer.Core.{TimeUtils, IsTimeUtils}
use trading_chart_viewer.Storage.Record.{PriceData, is_valid_record, normalize_record}
use trading_chart_viewer.Storage.Engine.{
  Store, History, put, store_all, deduplicate, values_of, normalize_records, ingest_normalized,
  ingest_records,
}

-- A time at a whole minute.
abbrev pub Minutely : ℤ → Type 0
Minutely t = (n : ℕ) × (t ≡ pos (n * 60_000))

abbrev pub Sorted : {D : Type 0} → Store D → Type 0
Sorted [] = Unit
Sorted (e ∷ rest) = All (λ x. e.0 <ℤ x.0) rest × Sorted rest

-- The keys ascend and are whole minutes, and each record is stored under its own time.
pub record IsStore {D : Type 0} (m : Store D) : Type 0 where
  pub sorted : Sorted m
  pub aligned : All (λ x. Minutely x.0) m
  pub own_key : All (λ x. x.1.open_time ≡ x.0) m

module _ {D : Type 0} where
  All-put :
      (P : (ℤ × PriceData D) → Type 0) (k : ℤ) (r : PriceData D) (m : Store D)
      → P (k, r)
      → All P m
      → All P (put k r m)
  unfolding put
  All-put P k r [] h g = (h, tt)
  All-put P k r ((j, s) ∷ rest) h g = elim (Bool-cases (ltb_ℤ k j)) [
    | inl e ↦ rw e (h, g)
    | inr e ↦ rw e (elim (Bool-cases (k ==ℤ j)) [
      | inl f ↦ rw f (h, g.1)
      | inr f ↦ rw f (g.0, All-put P k r rest h g.1)
    ])
  ]

  pub All-below : (k j : ℤ) (m : Store D) → k ≤ℤ j → All (λ x. j <ℤ x.0) m → All (λ x. k <ℤ x.0) m
  All-below k j [] h g = tt
  All-below k j (x ∷ rest) h g = (omega (arith, h, g.0), All-below k j rest h g.1)

  Sorted-put : (k : ℤ) (r : PriceData D) (m : Store D) → Sorted m → Sorted (put k r m)
  unfolding put
  Sorted-put k r [] h = (tt, tt)
  Sorted-put k r ((j, s) ∷ rest) h = elim (Bool-cases (ltb_ℤ k j)) [
    | inl e ↦ rw e ((ground (arith, e), All-below k j rest (ground (arith, e)) h.0), h)
    | inr e ↦ rw e (elim (Bool-cases (k ==ℤ j)) [
      | inl f ↦ rw f (All-below k j rest (ground (arith, f)) h.0, h.1)
      | inr f ↦
          rw f
            (All-put (λ x. j <ℤ x.0) k r rest (ground (arith, e, f)) h.0, Sorted-put k r rest h.1)
    ])
  ]

  pub put-IsStore :
      (r : PriceData D) (m : Store D)
      → Minutely r.open_time
      → IsStore m
      → IsStore (put r.open_time r m)
  put-IsStore r m h v = record {
    sorted = Sorted-put r.open_time r m v.sorted;
    aligned = All-put (λ x. Minutely x.0) r.open_time r m h v.aligned;
    own_key = All-put (λ x. x.1.open_time ≡ x.0) r.open_time r m refl v.own_key;
  }

  store_all-IsStore :
      (m : Store D) (rs : List (PriceData D))
      → All (λ r. Minutely r.open_time) rs
      → IsStore m
      → IsStore (store_all m rs)
  unfolding store_all
  store_all-IsStore m [] h v = v
  store_all-IsStore m (r ∷ rs) h v =
      store_all-IsStore (put r.open_time r m) rs h.1 (put-IsStore r m h.0 v)

  pub values-Minutely :
      (m : Store D)
      → All (λ x. Minutely x.0) m
      → All (λ x. x.1.open_time ≡ x.0) m
      → All (λ r. Minutely r.open_time) (values_of m)
  values-Minutely [] h g = tt
  values-Minutely ((k, r) ∷ rest) h g = ((h.0.0, g.0 ∙ h.0.1), values-Minutely rest h.1 g.1)

pub floor-Minutely :
    (u : TimeUtils) (times : IsTimeUtils u) (t : ℤ)
    → leb_ℤ (u.floor_to_minute_ms t) (pos 0) ≡ false
    → Minutely (u.floor_to_minute_ms t)
floor-Minutely u times (pos t) e = (t / 60_000, times.floors t)
floor-Minutely u times (negsuc t) e =
    let low = times.floors_negative t in absurd (ground (arith, e, low))

module _ {D : Type 0} (u : TimeUtils) (times : IsTimeUtils u) where
  pub normal-Minutely : (r : PriceData D) → Minutely (normalize_record u r).open_time
  unfolding normalize_record
  normal-Minutely r = elim (Bool-cases (leb_ℤ (u.floor_to_minute_ms r.open_time) (pos 0))) [
    | inl e ↦ rw e (0, refl)
    | inr e ↦ rw e (floor-Minutely u times r.open_time e)
  ]

  deduplicate-IsStore :
      (m : Store D) (rs : List (PriceData D)) → IsStore m → IsStore (deduplicate u m rs)
  unfolding deduplicate
  deduplicate-IsStore m [] v = v
  deduplicate-IsStore m (r ∷ rs) v =
      let n = normalize_record u r in
      elim (Bool-cases (is_valid_record n)) [
        | inl e ↦
            rw e
              (deduplicate-IsStore (put n.open_time n m) rs (put-IsStore n m (normal-Minutely r) v))
        | inr e ↦ rw e (deduplicate-IsStore m rs v)
      ]

  ingest_normalized-IsStore :
      (h : History D) (rs : List (PriceData D))
      → All (λ r. Minutely r.open_time) rs
      → IsStore h.entries
      → IsStore (ingest_normalized u h rs).entries
  unfolding ingest_normalized
  ingest_normalized-IsStore h [] g v = v
  ingest_normalized-IsStore h (r ∷ rs) g v = store_all-IsStore h.entries (r ∷ rs) g v

  -- Taking any records in keeps the store in order, with a whole minute for each key, under which
  -- the record of that time stands.
  pub ingest_records-IsStore :
      (h : History D) (rs : List (PriceData D))
      → IsStore h.entries
      → IsStore (ingest_records u h rs).entries
  unfolding ingest_records normalize_records
  ingest_records-IsStore h rs v =
      let d = deduplicate-IsStore [] rs (record { sorted = tt; aligned = tt; own_key = tt }) in
      ingest_normalized-IsStore h (values_of (deduplicate u [] rs))
        (values-Minutely (deduplicate u [] rs) d.aligned d.own_key) v
