-- ===== src/Storage/Repository/Persist.antt =====
-- What persisting a closed candle writes.
use mathlib.Core.Option.{some-injective}
use mathlib.Core.List.{map-append, append-nil}
use trading_chart_viewer.Common.{
  ℕ, ◌*◌, ◌≡◌, refl, ap, sym, ◌∙◌, true, some, List, [], ◌∷◌, ◌++◌, map, back, set_back, front,
  front-back, set_back-front, back-map, keep-append, All, All-keep, All-back, All-front, arith,
  Bool-cases, inl, inr,
}
use trading_chart_viewer.Common.Int.{ℤ, pos, ◌+ℤ◌, ◌<ℤ◌, int_laws, lt→ltb_ℤ, ==ℤ-ne, ==ℤ-refl}
use trading_chart_viewer.Common.Double.{DoubleOps}
use trading_chart_viewer.Core.{TimeUtils, IsTimeUtils}
use trading_chart_viewer.Domain.{Candle}
use trading_chart_viewer.Storage.Record.{PriceData, is_valid_record}
use trading_chart_viewer.Storage.Manager.Save.{IsUsable, upsert, save_records-upsert}
use trading_chart_viewer.Storage.Repository.State.{Layout, Repository, to_price_data}
use trading_chart_viewer.Storage.Repository.Append.{persist_closed}
use trading_chart_viewer.Storage.Repository.Storable.{
  IsLayout, IsStorable, disk_record, disk_record-open_time, disk_record-valid, to_price_data-valid,
}
use trading_chart_viewer.Storage.Repository.Linked.{
  Linked, closed, closed-front, closed-sealed, front-older,
}

module _ {D : Type 0} where
  pub upsert-newer :
      (xs : List (PriceData D)) (n : PriceData D)
      → ((l : PriceData D) → back xs ≡ some l → l.open_time <ℤ n.open_time)
      → upsert xs n ≡ xs ++ n ∷ []
  unfolding upsert
  upsert-newer [] n h = refl
  upsert-newer (x ∷ []) n h =
      rw (==ℤ-ne x.open_time n.open_time (h x refl), lt→ltb_ℤ x.open_time n.open_time (h x refl))
        refl
  upsert-newer (x ∷ y ∷ r) n h = ap (◌∷◌ x) (upsert-newer (y ∷ r) n h)

  pub upsert-same :
      (xs : List (PriceData D)) (x n : PriceData D)
      → x.open_time ≡ n.open_time
      → upsert (xs ++ x ∷ []) n ≡ xs ++ n ∷ []
  unfolding upsert
  upsert-same [] x n e = rw (e, ==ℤ-refl n.open_time) refl
  upsert-same (y ∷ []) x n e = ap (◌∷◌ y) (upsert-same [] x n e)
  upsert-same (y ∷ z ∷ r) x n e = ap (◌∷◌ y) (upsert-same (z ∷ r) x n e)

-- The records of the closed candles.
abbrev pub stored :
    {D : Type 0} → TimeUtils → DoubleOps D → Layout → List (Candle D) → List (PriceData D)
stored u ops l cs = map (disk_record u ops l) (closed cs)

module _ {D : Type 0} (u : TimeUtils) (times : IsTimeUtils u) (ops : DoubleOps D)
    (garbage : PriceData D) (k : ℕ) (l : Layout) (good : IsLayout u k l) where
  abbrev disk : Candle D → PriceData D
  disk = disk_record u ops l

  abbrev step : ℤ
  step = pos (k * 60_000)

  step_later : pos 0 <ℤ step
  step_later = omega (arith, good.some_minutes)

  stored-valid :
      (cs : List (Candle D))
      → All (IsStorable k) cs
      → All (λ x. is_valid_record x ≡ true) (map disk cs)
  stored-valid [] h = tt
  stored-valid (c ∷ cs) h = (disk_record-valid u times ops k l good c h.0, stored-valid cs h.1)

  -- Persisting a closed candle that is storable succeeds, and changes only the records.
  pub persist_closed-upsert :
      (r : Repository D) (cs : List (Candle D)) (n : Candle D)
      → r.layout ≡ l
      → IsUsable r.file
      → All (IsStorable k) cs
      → r.file.records ≡ stored u ops l cs
      → n.is_closed ≡ true
      → IsStorable k n
      → persist_closed u ops garbage r n ≡ (
        true,
        record r { file = record r.file { records = upsert (stored u ops l cs) (disk n) } },
      )
  unfolding persist_closed disk_record
  persist_closed-upsert r cs n el usable all e closed_now s =
      rw
        (
          el,
          to_price_data-valid u times ops k l good n s,
          save_records-upsert u garbage r.file (to_price_data ops l n) usable
              (rw e (stored-valid (closed cs) (All-keep (IsStorable k) _ cs all)))
              (disk_record-valid u times ops k l good n s),
          e,
          closed_now,
        )
        refl

  pub stored-front :
      (cs : List (Candle D)) (n : Candle D)
      → Linked step cs
      → stored u ops l (front cs ++ n ∷ []) ≡ map disk (front cs) ++ stored u ops l (n ∷ [])
  stored-front cs n h =
      rw (keep-append (λ (c : Candle D). c.is_closed) (front cs) (n ∷ []), closed-front step cs h)
        (map-append _ _ _)

  front-earlier :
      (cs : List (Candle D)) (last n : Candle D)
      → Linked step cs
      → All (IsStorable k) cs
      → back cs ≡ some last
      → n.open_time ≡ last.open_time
      → IsStorable k n
      → (x : PriceData D) → back (map disk (front cs)) ≡ some x
      → x.open_time <ℤ (disk n).open_time
  front-earlier cs last n h all e o s x f =
      let (p, pe, px) = back-map disk (front cs) x f in
      let old = All-back (IsStorable k) (front cs) p (All-front (IsStorable k) cs all) pe in
      rw
        (
          ← px,
          disk_record-open_time u times ops k l good p old,
          disk_record-open_time u times ops k l good n s,
          o,
        )
        (front-older step cs last p step_later h e pe)

  -- The candle that takes the place of the last one takes the place of its record, or follows.
  pub upsert-replaced :
      (cs : List (Candle D)) (last n : Candle D)
      → Linked step cs
      → All (IsStorable k) cs
      → back cs ≡ some last
      → n.open_time ≡ last.open_time
      → n.is_closed ≡ true
      → IsStorable k n
      → upsert (stored u ops l cs) (disk n) ≡ stored u ops l (set_back cs n)
  unfolding disk_record to_price_data
  upsert-replaced cs last n h all e o closed_now s =
      rw
        (
          set_back-front cs last n e,
          stored-front cs n h,
          closed_now,
          ap (λ xs. stored u ops l xs) (front-back cs last e),
          stored-front cs last h,
        )
        (elim (Bool-cases last.is_closed) [
          | inl sealed ↦ rw sealed (
              upsert-same (map disk (front cs)) (disk last) (disk n) (
                disk_record-open_time u times ops k l good last
                  (All-back (IsStorable k) cs last all e)
                ∙ sym o
                ∙ sym (disk_record-open_time u times ops k l good n s)))
          | inr pending ↦
              rw (pending, append-nil)
                (upsert-newer (map disk (front cs)) (disk n) (front-earlier cs last n h all e o s))
        ])

  last_earlier :
      (cs : List (Candle D)) (last n : Candle D)
      → Linked step cs
      → All (IsStorable k) cs
      → back cs ≡ some last
      → last.is_closed ≡ true
      → n.open_time ≡ last.open_time +ℤ step
      → IsStorable k n
      → (x : PriceData D) → back (stored u ops l cs) ≡ some x
      → x.open_time <ℤ (disk n).open_time
  last_earlier cs last n h all e sealed o s x f =
      let (p, pe, px) = back-map disk (closed cs) x f in
      let same : some p ≡ some last =
        sym pe ∙ ap back (closed-sealed step cs last h e sealed) ∙ e in
      rw
        (
          ← px,
          some-injective _ _ same,
          disk_record-open_time u times ops k l good last (All-back (IsStorable k) cs last all e),
          disk_record-open_time u times ops k l good n s,
          o,
        )
        (omega (int_laws, step_later))

  pub upsert-appended :
      (cs : List (Candle D)) (last n : Candle D)
      → Linked step cs
      → All (IsStorable k) cs
      → back cs ≡ some last
      → last.is_closed ≡ true
      → n.open_time ≡ last.open_time +ℤ step
      → n.is_closed ≡ true
      → IsStorable k n
      → upsert (stored u ops l cs) (disk n) ≡ stored u ops l (cs ++ n ∷ [])
  unfolding disk_record to_price_data
  upsert-appended cs last n h all e sealed o closed_now s =
      rw (keep-append (λ (c : Candle D). c.is_closed) cs (n ∷ []), closed_now, map-append)
        (upsert-newer (stored u ops l cs) (disk n) (last_earlier cs last n h all e sealed o s))
