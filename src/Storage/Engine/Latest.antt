-- ===== src/Storage/Engine/Latest.antt =====
-- src/infra/storage/DatabaseEngine.cpp: the order of the records in the cache.
use mathlib.Core.List.{reverse-cons}
use trading_chart_viewer.Common.{
  ℕ, zero, suc, ◌≤◌, ◌≡◌, Bool, Option, some, none, List, [], ◌∷◌, ◌++◌, take, length, length-take,
  reverse, All, All-append, arith, if_split,
}
use trading_chart_viewer.Common.Int.{ℤ, ◌<ℤ◌, ltb_ℤ, ◌==ℤ◌}
use trading_chart_viewer.Common.Double.{DoubleOps}
use trading_chart_viewer.Storage.Record.{PriceData}
use trading_chart_viewer.Storage.Engine.{Store, values_of}
use trading_chart_viewer.Storage.Engine.Cache.{
  Engine, Task, save_closed, save_page, stamp, ingest_one, ingest, copy_newest, install,
  call_limits, call_cache, call_full_data, newest, cache_size, install_latest,
}
use trading_chart_viewer.Storage.Engine.Updates.{take_record}
use trading_chart_viewer.Storage.Engine.Order.{Minutely, Sorted, IsStore, values-Minutely}

module _ {D : Type 0} where
  -- The newest record stands first, and no time stands twice.
  abbrev pub Descending : List (PriceData D) → Type 0
  Descending [] = Unit
  Descending (r ∷ rs) = All (λ x. x.open_time <ℤ r.open_time) rs × Descending rs

  -- Records of whole minutes, the newest one first, twenty at most.
  pub record IsLatest (rs : List (PriceData D)) : Type 0 where
    pub descending : Descending rs
    pub aligned : All (λ r. Minutely r.open_time) rs
    pub few : length rs ≤ 20

  pub All-take :
      (P : PriceData D → Type 0) (n : ℕ) (rs : List (PriceData D)) → All P rs → All P (take n rs)
  All-take P zero rs h = tt
  All-take P (suc n) [] h = tt
  All-take P (suc n) (r ∷ rs) h = (h.0, All-take P n rs h.1)

  Descending-take : (n : ℕ) (rs : List (PriceData D)) → Descending rs → Descending (take n rs)
  Descending-take zero rs h = tt
  Descending-take (suc n) [] h = tt
  Descending-take (suc n) (r ∷ rs) h =
      (All-take (λ x. x.open_time <ℤ r.open_time) n rs h.0, Descending-take n rs h.1)

  take-IsLatest :
      (rs : List (PriceData D))
      → Descending rs
      → All (λ r. Minutely r.open_time) rs
      → IsLatest (take cache_size rs)
  take-IsLatest rs h aligned = record {
    descending = Descending-take 20 rs h;
    aligned = All-take (λ r. Minutely r.open_time) 20 rs aligned;
    few = rw (length-take 20 rs) (omega arith);
  }

  pub All-reverse :
      (P : PriceData D → Type 0) (rs : List (PriceData D)) → All P rs → All P (reverse rs)
  All-reverse P [] h = tt
  All-reverse P (r ∷ rs) h =
      rw (reverse-cons r rs) (All-append P (reverse rs) (r ∷ []) (All-reverse P rs h.1) (h.0, tt))

  Descending-append :
      (rs : List (PriceData D)) (r : PriceData D)
      → Descending rs
      → All (λ x. r.open_time <ℤ x.open_time) rs
      → Descending (rs ++ r ∷ [])
  Descending-append [] r h g = (tt, tt)
  Descending-append (x ∷ rs) r h g = (
    All-append (λ y. y.open_time <ℤ x.open_time) rs (r ∷ []) h.0 (g.0, tt),
    Descending-append rs r h.1 g.1,
  )

  values_after :
      (k : ℤ) (m : Store D)
      → All (λ x. k <ℤ x.0) m
      → All (λ x. x.1.open_time ≡ x.0) m
      → All (λ r. k <ℤ r.open_time) (values_of m)
  values_after k [] h own = tt
  values_after k (x ∷ m) h own = (rw own.0 h.0, values_after k m h.1 own.1)

  reverse-Descending :
      (m : Store D)
      → Sorted m
      → All (λ x. x.1.open_time ≡ x.0) m
      → Descending (reverse (values_of m))
  reverse-Descending [] h own = tt
  reverse-Descending (x ∷ m) h own = rw (reverse-cons x.1 (values_of m)) (
      Descending-append (reverse (values_of m)) x.1 (reverse-Descending m h.1 own.1) (
        All-reverse (λ r. x.1.open_time <ℤ r.open_time) (values_of m)
          (rw own.0 (values_after x.0 m h.0 own.1))))

  pub newest-IsLatest : (m : Store D) → IsStore m → IsLatest (newest m)
  newest-IsLatest m v =
      take-IsLatest (reverse (values_of m)) (reverse-Descending m v.sorted v.own_key) (
        All-reverse (λ r. Minutely r.open_time) (values_of m)
          (values-Minutely m v.aligned v.own_key))

  all_older :
      (r s : PriceData D) (rs : List (PriceData D))
      → s.open_time <ℤ r.open_time
      → All (λ x. x.open_time <ℤ s.open_time) rs
      → All (λ x. x.open_time <ℤ r.open_time) rs
  all_older r s [] h g = tt
  all_older r s (x ∷ rs) h g = (omega (arith, h, g.0), all_older r s rs h g.1)

  all_before :
      (r s : PriceData D) (rs : List (PriceData D))
      → r.open_time ≡ s.open_time
      → All (λ x. x.open_time <ℤ s.open_time) rs
      → All (λ x. x.open_time <ℤ r.open_time) rs
  all_before r s [] h g = tt
  all_before r s (x ∷ rs) h g = (rw h g.0, all_before r s rs h g.1)

  -- What a task is about to put into the cache can stand there.
  abbrev pub IsFitting : Task D → Type 0
  IsFitting (install rs) = IsLatest rs
  IsFitting (save_closed r) = Unit
  IsFitting (save_page rs) = Unit
  IsFitting (stamp t) = Unit
  IsFitting (ingest_one r) = Unit
  IsFitting (ingest rs) = Unit
  IsFitting copy_newest = Unit
  IsFitting (call_limits observers highest lowest) = Unit
  IsFitting call_cache = Unit
  IsFitting call_full_data = Unit

  -- The engine and what its thread has still to do.
  pub record IsKept (e : Engine D) (ts : List (Task D)) : Type 0 where
    pub store : IsStore e.history.entries
    pub cache : IsLatest e.cache
    pub fitting : All IsFitting ts

  module _ (ops : DoubleOps D) (differ : D → D → Bool) where
    abbrev pub IsTaken : Option (Engine D × List (Task D)) → Type 0
    IsTaken none = Unit
    IsTaken (some next) = IsKept next.0 next.1

    pub take_record-IsTaken :
        (e : Engine D) (cache : List (PriceData D)) (r : PriceData D)
        → IsStore e.history.entries
        → IsLatest cache
        → Minutely r.open_time
        → IsTaken (take_record ops differ e cache r)
    unfolding take_record
    take_record-IsTaken e [] r v c aligned = record {
      store = v;
      cache = record { descending = (tt, tt); aligned = (aligned, tt); few = omega arith };
      fitting = (tt, (tt, (tt, (tt, tt))));
    }
    take_record-IsTaken e (front ∷ rest) r v c aligned =
        if_split IsTaken (ltb_ℤ front.open_time r.open_time) _ _
          (λ newer. record {
            store = v;
            cache =
                take-IsLatest (r ∷ front ∷ rest)
                  (
                    (
                      ground (arith, newer),
                      all_older r front rest (ground (arith, newer)) c.descending.0,
                    ),
                    c.descending,
                  )
                  (aligned, c.aligned);
            fitting = (tt, (tt, (tt, (tt, (tt, tt)))));
          })
          (λ not_newer.
            if_split IsTaken (r.open_time ==ℤ front.open_time) _ _
              (λ same. record {
                store = v;
                cache = record {
                  descending = (
                    all_before r front rest (ground (arith, same)) c.descending.0,
                    c.descending.1,
                  );
                  aligned = (aligned, c.aligned.1);
                  few = omega (arith, c.few);
                };
                fitting = (tt, (tt, (tt, tt)));
              })
              (λ stale. tt))

    pub install_latest-IsKept :
        (rs : List (PriceData D)) (e : Engine D)
        → IsStore e.history.entries
        → IsLatest rs
        → let next = install_latest ops differ rs e in IsKept next.0 next.1
    unfolding install_latest
    install_latest-IsKept [] e v c = record { store = v; cache = c; fitting = tt }
    install_latest-IsKept (r ∷ rs) e v c = record { store = v; cache = c; fitting = (tt, tt) }
