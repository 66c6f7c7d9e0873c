-- ===== src/Storage/Engine/Reaching.antt =====
-- src/infra/storage/DatabaseEngine.cpp: the cache against the store, for one task and one turn of a thread.
use trading_chart_viewer.Common.{
  ◌≡◌, refl, true, false, ◌||◌, ◌++◌, if_split, take, Bool-cases, inl, inr, ℕ, zero, suc, Bool,
  Option, some, none, List, [], ◌∷◌, All, All-append, arith,
}
use trading_chart_viewer.Common.Double.{DoubleOps}
use trading_chart_viewer.Core.{TimeUtils, IsTimeUtils}
use trading_chart_viewer.Storage.Record.{PriceData, is_valid_record, normalize_record}
use trading_chart_viewer.Storage.Engine.Order.{IsStore}
use trading_chart_viewer.Storage.Engine.Cache.{
  Engine, Task, save_closed, save_page, stamp, ingest_one, ingest, copy_newest, install,
  call_limits, call_cache, call_full_data, notify_limits, notify_observers,
  notify_full_data_observers,
}
use trading_chart_viewer.Storage.Engine.Updates.{take_record, run_task}
use trading_chart_viewer.Storage.Engine.Running.{Running, take_turn}
use trading_chart_viewer.Common.Int.{ℤ, ltb_ℤ, ◌==ℤ◌, ==ℤ-refl, ==ℤ-eq}
use trading_chart_viewer.Storage.Engine.{Store, ingest_records}
use trading_chart_viewer.Storage.Engine.Cache.{cache_size, install_latest}
use trading_chart_viewer.Storage.Engine.Updates.{take_record}
use trading_chart_viewer.Storage.Engine.Latest.{All-take}
use trading_chart_viewer.Storage.Engine.Held.{
  All-map, has, owes, owed_by, owed, owed_by-append, Grows, newest-has, ingest-Grows,
  ingest_one-has, IsSound, IsSound-Grows,
}

module _ {D : Type 0} where
  -- The store has a record of the time of each of these, or one is owed.
  abbrev pub IsBacked : Store D → (ℤ → Bool) → List (PriceData D) → Type 0
  IsBacked m due = All (λ r. (has r.open_time m || due r.open_time) ≡ true)

  -- The store may grow and what is owed may change, as long as nothing is lost.
  pub keep-IsBacked :
      (m n : Store D) (before after : ℤ → Bool) (rs : List (PriceData D))
      → ((t : ℤ) → (has t m || before t) ≡ true → (has t n || after t) ≡ true)
      → IsBacked m before rs
      → IsBacked n after rs
  keep-IsBacked m n before after rs f =
      All-map (λ r. (has r.open_time m || before r.open_time) ≡ true)
        (λ r. (has r.open_time n || after r.open_time) ≡ true) (λ r. f r.open_time) rs

  -- The time that was owed has its record, and what others owe is still owed.
  reached :
      (m n : Store D) (k t : ℤ) (due : ℤ → Bool)
      → (has k m ≡ true → has k n ≡ true)
      → has t n ≡ true
      → (has k m || ((k ==ℤ t) || due k)) ≡ true
      → (has k n || due k) ≡ true
  reached m n k t due grown stored g = elim (Bool-cases (k ==ℤ t)) [
    | inl e ↦ rw (==ℤ-eq k t e, stored) refl
    | inr e ↦ ground (arith, e, g, grown)
  ]

module _ {D : Type 0} (u : TimeUtils) (times : IsTimeUtils u) (ops : DoubleOps D)
    (differ : D → D → Bool) (garbage : PriceData D) where
  -- What a task leaves, where `due` is what others owe.
  pub record IsDone (m : Store D) (due : ℤ → Bool) (next : Engine D × List (Task D)) : Type 0 where
    pub backed : IsBacked next.0.history.entries due next.0.cache
    pub sound : All (IsSound u times next.0.history.entries) next.1
    pub none_owed : (t : ℤ) → owed_by t next.1 ≡ false
    pub grows : Grows m next.0.history.entries

  pub same-Grows : (m : Store D) → Grows m m
  same-Grows m t h = h

  installed :
      (rs : List (PriceData D)) (e : Engine D) (due : ℤ → Bool)
      → All (λ r. has r.open_time e.history.entries ≡ true) rs
      → IsDone e.history.entries due (install_latest ops differ rs e)
  unfolding install_latest
  installed [] e due h = record {
    backed = tt;
    sound = tt;
    none_owed = λ t. refl;
    grows = same-Grows e.history.entries;
  }
  installed (r ∷ rs) e due h = record {
    backed =
        All-map (λ x. has x.open_time e.history.entries ≡ true)
          (λ x. (has x.open_time e.history.entries || due x.open_time) ≡ true)
          (λ x g. ground (arith, g)) (r ∷ rs) h;
    sound = (tt, tt);
    none_owed = λ t. refl;
    grows = same-Grows e.history.entries;
  }

  pub run_task-IsDone :
      (t : Task D) (e : Engine D) (due : ℤ → Bool)
      → IsStore e.history.entries
      → IsSound u times e.history.entries t
      → IsBacked e.history.entries (λ k. owes k t || due k) e.cache
      → IsDone e.history.entries due (run_task u ops differ garbage t e)
  unfolding run_task notify_limits notify_observers notify_full_data_observers
  run_task-IsDone (save_closed r) e due v h b = record {
    backed = b;
    sound = tt;
    none_owed = λ t. refl;
    grows = same-Grows e.history.entries;
  }
  run_task-IsDone (save_page rs) e due v h b = record {
    backed = b;
    sound = tt;
    none_owed = λ t. refl;
    grows = same-Grows e.history.entries;
  }
  run_task-IsDone (stamp k) e due v h b = record {
    backed = b;
    sound = tt;
    none_owed = λ t. refl;
    grows = same-Grows e.history.entries;
  }
  run_task-IsDone (ingest_one r) e due v h b =
      let grown = ingest-Grows u times e.history (r ∷ []) in
      let stored = ingest_one-has u times e.history r h.0 h.1 in
      record {
        backed =
            keep-IsBacked e.history.entries (ingest_records u e.history (r ∷ [])).entries
              (λ k. owes k (ingest_one r) || due k) due e.cache
              (λ k g. reached e.history.entries _ k r.open_time due (grown k) stored g) b;
        sound = tt;
        none_owed = λ t. refl;
        grows = grown;
      }
  run_task-IsDone (ingest rs) e due v h b =
      let grown = ingest-Grows u times e.history rs in
      record {
        backed =
            keep-IsBacked e.history.entries (ingest_records u e.history rs).entries due due e.cache
              (λ k g. ground (arith, g, grown k)) b;
        sound = tt;
        none_owed = λ t. refl;
        grows = grown;
      }
  run_task-IsDone copy_newest e due v h b = record {
    backed = b;
    sound = (newest-has e.history.entries v, tt);
    none_owed = λ t. refl;
    grows = same-Grows e.history.entries;
  }
  run_task-IsDone (install rs) e due v h b = installed rs e due h
  run_task-IsDone (call_limits observers highest lowest) e due v h b = record {
    backed = b;
    sound = tt;
    none_owed = λ t. refl;
    grows = same-Grows e.history.entries;
  }
  run_task-IsDone call_cache e due v h b = record {
    backed = b;
    sound = tt;
    none_owed = λ t. refl;
    grows = same-Grows e.history.entries;
  }
  run_task-IsDone call_full_data e due v h b = record {
    backed = b;
    sound = tt;
    none_owed = λ t. refl;
    grows = same-Grows e.history.entries;
  }

  pub record IsHeld (m : Store D) (more : ℤ → Bool) (s : Running D) : Type 0 where
    pub backed : IsBacked s.engine.history.entries (λ k. more k || owed k s.threads) s.engine.cache
    pub sound : All (All (IsSound u times s.engine.history.entries)) s.threads
    pub grows : Grows m s.engine.history.entries

  thread-Grows :
      (m n : Store D) (ts : List (Task D))
      → Grows m n
      → All (IsSound u times m) ts
      → All (IsSound u times n) ts
  thread-Grows m n ts g =
      All-map (IsSound u times m) (IsSound u times n) (λ t. IsSound-Grows u times m n t g) ts

  pub take_turn-IsHeld :
      (n : ℕ) (threads : List (List (Task D))) (e : Engine D) (more : ℤ → Bool)
      → IsStore e.history.entries
      → All (All (IsSound u times e.history.entries)) threads
      → IsBacked e.history.entries (λ k. more k || owed k threads) e.cache
      → IsHeld e.history.entries more (take_turn u ops differ garbage n threads e)
  unfolding take_turn
  take_turn-IsHeld n [] e more v h b = record {
    backed = b;
    sound = tt;
    grows = same-Grows e.history.entries;
  }
  take_turn-IsHeld zero ([] ∷ others) e more v h b = record {
    backed = b;
    sound = h.1;
    grows = same-Grows e.history.entries;
  }
  take_turn-IsHeld zero ((t ∷ ts) ∷ others) e more v h b =
      let m = e.history.entries in
      let rest = λ (k : ℤ). more k || (owed_by k ts || owed k others) in
      let next = run_task u ops differ garbage t e in
      let n = next.0.history.entries in
      let done = run_task-IsDone t e rest v h.0.0 (
        keep-IsBacked m m (λ k. more k || owed k ((t ∷ ts) ∷ others)) (λ k. owes k t || rest k)
          e.cache (λ k g. ground (arith, g)) b) in
      record {
        backed =
            keep-IsBacked n n rest (λ k. more k || owed k ((next.1 ++ ts) ∷ others)) next.0.cache
              (λ k g. ground (arith, g, owed_by-append k next.1 ts, done.none_owed k)) done.backed;
        sound = (
          All-append (IsSound u times n) next.1 ts done.sound
              (thread-Grows m n ts done.grows h.0.1),
          All-map (All (IsSound u times m)) (All (IsSound u times n))
              (λ th. thread-Grows m n th done.grows) others h.1,
        );
        grows = done.grows;
      }
  take_turn-IsHeld (suc n) (thread ∷ others) e more v h b =
      let m = e.history.entries in
      let also = λ (k : ℤ). more k || owed_by k thread in
      let s = take_turn u ops differ garbage n others e in
      let held = take_turn-IsHeld n others e also v h.1 (
        keep-IsBacked m m (λ k. more k || owed k (thread ∷ others)) (λ k. also k || owed k others)
          e.cache (λ k g. ground (arith, g)) b) in
      record {
        backed =
            keep-IsBacked s.engine.history.entries s.engine.history.entries
              (λ k. also k || owed k s.threads) (λ k. more k || owed k (thread ∷ s.threads))
              s.engine.cache (λ k g. ground (arith, g)) held.backed;
        sound = (thread-Grows m s.engine.history.entries thread held.grows h.0, held.sound);
        grows = held.grows;
      }

  -- What a live record leaves under the lock of the cache.
  pub record IsBegun (m : Store D) (more : ℤ → Bool) (next : Engine D × List (Task D))
      : Type 0 where
    pub backed : IsBacked next.0.history.entries (λ k. owed_by k next.1 || more k) next.0.cache
    pub sound : All (IsSound u times next.0.history.entries) next.1
    pub grows : Grows m next.0.history.entries

  abbrev pub IsBegunIfAny : Store D → (ℤ → Bool) → Option (Engine D × List (Task D)) → Type 0
  IsBegunIfAny m more none = Unit
  IsBegunIfAny m more (some next) = IsBegun m more next

  pub take_record-IsBegun :
      (e : Engine D) (cache : List (PriceData D)) (r : PriceData D) (more : ℤ → Bool)
      → is_valid_record r ≡ true
      → normalize_record u r ≡ r
      → IsBacked e.history.entries more cache
      → IsBegunIfAny e.history.entries more (take_record ops differ e cache r)
  unfolding take_record
  take_record-IsBegun e [] r more valid normal b = record {
    backed = (ground (arith, ==ℤ-refl r.open_time), tt);
    sound = ((valid, normal), (tt, (tt, (tt, tt))));
    grows = same-Grows e.history.entries;
  }
  take_record-IsBegun e (front ∷ rest) r more valid normal b =
      let m = e.history.entries in
      if_split (IsBegunIfAny m more) (ltb_ℤ front.open_time r.open_time) _ _
        (λ newer.
          let due = λ (k : ℤ). (k ==ℤ r.open_time) || more k in
          record {
            backed =
                keep-IsBacked m m due _ (take cache_size (r ∷ front ∷ rest))
                  (λ k g. ground (arith, g))
                  (All-take (λ x. (has x.open_time m || due x.open_time) ≡ true) 20
                    (r ∷ front ∷ rest)
                    (
                      ground (arith, ==ℤ-refl r.open_time),
                      keep-IsBacked m m more due (front ∷ rest) (λ k g. ground (arith, g)) b,
                    ));
            sound = (tt, ((valid, normal), (tt, (tt, (tt, tt)))));
            grows = same-Grows m;
          })
        (λ not_newer.
          if_split (IsBegunIfAny m more) (r.open_time ==ℤ front.open_time) _ _
            (λ same. record {
              backed = (
                ground (arith, ==ℤ-refl r.open_time),
                keep-IsBacked m m more _ rest (λ k g. ground (arith, g)) b.1,
              );
              sound = ((valid, normal), (tt, (tt, tt)));
              grows = same-Grows m;
            })
            (λ stale. tt))
