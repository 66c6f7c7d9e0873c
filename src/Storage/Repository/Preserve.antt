-- ===== src/Storage/Repository/Preserve.antt =====
-- The branches of `appendOrReplaceLocked` keep the invariant.
use trading_chart_viewer.Common.{
  map, ℕ, ◌*◌, ◌≡◌, refl, ap, sym, ◌∙◌, true, false, not, ◌&&◌, ◌||◌, some, List, [], ◌∷◌, ◌++◌,
  inl, inr, back, set_back, front, front-back, set_back-front, back-set_back, All-back, All-append,
  All-set_back, arith, Bool-cases,
}
use trading_chart_viewer.Common.Int.{pos, ◌+ℤ◌}
use trading_chart_viewer.Common.Double.{DoubleOps}
use trading_chart_viewer.Core.{TimeUtils, IsTimeUtils}
use trading_chart_viewer.Domain.{Candle, no_metadata}
use trading_chart_viewer.Storage.Record.{PriceData}
use trading_chart_viewer.Storage.Repository.State.{Layout, Repository, to_price_data, metadata_loop}
use trading_chart_viewer.Storage.Repository.Append.{
  persist_closed, append_first, replace_last, seal_last, append_next,
}
use trading_chart_viewer.Storage.Manager.Save.{upsert}
use trading_chart_viewer.Storage.Repository.Persist.{stored}
use trading_chart_viewer.Storage.Repository.Storable.{disk_record, IsLayout, IsStorable}
use trading_chart_viewer.Storage.Repository.Linked.{
  Linked-set_back, Linked-append, metadata_loop-append_open, closed-append_open,
}
use trading_chart_viewer.Storage.Repository.Invariant.{
  Inv, IsStored, with_candles, with_candles-IsStored, settled-Inv, persist_new, persist_open,
  persist_replaced, persist_appended, open_last,
}

abbrev pub sealed : {D : Type 0} → Candle D → Candle D
sealed c = record c { is_closed = true }

module _ {D : Type 0} (u : TimeUtils) (times : IsTimeUtils u) (ops : DoubleOps D)
    (garbage : PriceData D) (k : ℕ) (l : Layout) (good : IsLayout u k l) where
  metadata-set_back :
      (cs : List (Candle D)) (last n : Candle D)
      → back cs ≡ some last
      → last.is_closed ≡ false
      → n.is_closed ≡ false
      → metadata_loop true no_metadata (set_back cs n) ≡ metadata_loop true no_metadata cs
  metadata-set_back cs last n e pending c =
      ap (metadata_loop true no_metadata) (set_back-front cs last n e)
      ∙ metadata_loop-append_open true no_metadata (front cs) n c
      ∙ sym (metadata_loop-append_open true no_metadata (front cs) last pending)
      ∙ ap (metadata_loop true no_metadata) (sym (front-back cs last e))

  pub replace_last-Inv :
      (r : Repository D) (last n : Candle D)
      → Inv u ops k l r
      → back r.candles ≡ some last
      → n.open_time ≡ last.open_time
      → IsStorable k n
      → Inv u ops k l (replace_last u ops garbage r last n).1
  unfolding replace_last
  replace_last-Inv r last n v e o s = elim (Bool-cases (last.is_closed && not n.is_closed)) [
    | inl stale ↦ rw stale v
    | inr ok ↦
        rw (ok, persist_replaced u times ops garbage k l good r last n v.kept e o s ok)
          (settled-Inv u times ops garbage k l good r (set_back r.candles n) n.is_closed false v
            (Linked-set_back _ r.candles last n v.kept.linked e o)
            (All-set_back (IsStorable k) r.candles n v.kept.storable s)
            (λ c.
              metadata-set_back r.candles last n e
                (open_last u times ops garbage k l good last n ok c) c))
  ]

  upsert-first :
      (cs : List (Candle D)) (n : Candle D)
      → cs ≡ []
      → n.is_closed ≡ true
      → upsert (stored u ops l cs) (disk_record u ops l n) ≡ stored u ops l (cs ++ n ∷ [])
  unfolding upsert disk_record to_price_data
  upsert-first cs n e c = rw (e, c) refl

  persist_first :
      (r : Repository D) (n : Candle D)
      → IsStored u ops k l r
      → r.candles ≡ []
      → IsStorable k n
      → persist_closed u ops garbage (record r { candles = r.candles ++ n ∷ [] }) n
        ≡ (n.is_closed, with_candles u times ops garbage k l good r (r.candles ++ n ∷ []))
  persist_first r n v e s = elim (Bool-cases n.is_closed) [
    | inl c ↦
        persist_new u times ops garbage k l good r (r.candles ++ n ∷ []) n v c s
          (upsert-first r.candles n e c)
        ∙ ap (λ b. (b, with_candles u times ops garbage k l good r (r.candles ++ n ∷ []))) (sym c)
    | inr c ↦
        persist_open u times ops garbage k l good r (r.candles ++ n ∷ []) n v c
          (ap (map (disk_record u ops l)) (sym (closed-append_open r.candles n c)))
        ∙ ap (λ b. (b, with_candles u times ops garbage k l good r (r.candles ++ n ∷ []))) (sym c)
  ]

  pub append_first-Inv :
      (r : Repository D) (n : Candle D)
      → Inv u ops k l r
      → r.candles ≡ []
      → IsStorable k n
      → Inv u ops k l (append_first u ops garbage r n).1
  unfolding append_first
  append_first-Inv r n v e s = rw (persist_first r n v.kept e s) (
      settled-Inv u times ops garbage k l good r (r.candles ++ n ∷ []) n.is_closed false v (rw e tt)
        (All-append (IsStorable k) r.candles (n ∷ []) v.kept.storable (s, tt))
        (λ c. metadata_loop-append_open true no_metadata r.candles n c))

  pub sealed-IsStorable : (c : Candle D) → IsStorable k c → IsStorable k (sealed c)
  sealed-IsStorable c s = record {
    number = s.number;
    later = s.later;
    opens = s.opens;
    closes = s.closes;
    counts = s.counts;
  }

  seal_last-open :
      (r : Repository D) (last : Candle D)
      → IsStored u ops k l r
      → back r.candles ≡ some last
      → last.is_closed ≡ false
      → seal_last u ops garbage r last
        ≡ (true, with_candles u times ops garbage k l good r (set_back r.candles (sealed last)))
  unfolding seal_last
  seal_last-open r last v e pending =
      rw
        (
          pending,
          persist_replaced u times ops garbage k l good r last (sealed last) v e refl
              (sealed-IsStorable last (All-back (IsStorable k) r.candles last v.storable e))
              (ground arith),
        )
        refl

  -- Once the last candle is closed, the next one is appended.
  append_sealed :
      (r : Repository D) (last n : Candle D)
      → IsStored u ops k l r
      → back r.candles ≡ some last
      → last.is_closed ≡ true
      → n.open_time ≡ last.open_time +ℤ pos (k * 60_000)
      → IsStorable k n
      → IsStored u ops k l (with_candles u times ops garbage k l good r (r.candles ++ n ∷ []))
  append_sealed r last n v e c o s =
      with_candles-IsStored u times ops garbage k l good r (r.candles ++ n ∷ []) v
        (Linked-append _ r.candles last n v.linked e c o)
        (All-append (IsStorable k) r.candles (n ∷ []) v.storable (s, tt))

  seal_last-closed :
      (r : Repository D) (last : Candle D)
      → last.is_closed ≡ true
      → seal_last u ops garbage r last ≡ (false, r)
  unfolding seal_last
  seal_last-closed r last c = rw c refl

  pub sealed-back :
      (r : Repository D) (last : Candle D)
      → IsStored u ops k l r
      → back r.candles ≡ some last
      → IsStored u ops k l
          (with_candles u times ops garbage k l good r (set_back r.candles (sealed last)))
  sealed-back r last v e =
      with_candles-IsStored u times ops garbage k l good r (set_back r.candles (sealed last)) v
        (Linked-set_back _ r.candles last (sealed last) v.linked e refl)
        (All-set_back (IsStorable k) r.candles (sealed last) v.storable
          (sealed-IsStorable last (All-back (IsStorable k) r.candles last v.storable e)))

  pub append_next-Inv :
      (r : Repository D) (last n : Candle D)
      → Inv u ops k l r
      → back r.candles ≡ some last
      → n.open_time ≡ last.open_time +ℤ pos (k * 60_000)
      → IsStorable k n
      → Inv u ops k l (append_next u ops garbage r last n).1
  unfolding append_next
  append_next-Inv r last n v e o s = elim (Bool-cases last.is_closed) [
    | inl c ↦
        let w = append_sealed r last n v.kept e c o s in
        rw
          (
            seal_last-closed r last c,
            persist_appended u times ops garbage k l good r last n v.kept e c o s,
          )
          (settled-Inv u times ops garbage k l good r (r.candles ++ n ∷ []) (n.is_closed || false)
            false v w.linked w.storable
            (λ untouched.
              metadata_loop-append_open true no_metadata r.candles n (ground (arith, untouched))))
    | inr pending ↦
        let cs = set_back r.candles (sealed last) in
        let q = with_candles u times ops garbage k l good r cs in
        let qe = back-set_back r.candles last (sealed last) e in
        let w = append_sealed q (sealed last) n (sealed-back r last v.kept e) qe refl o s in
        rw
          (
            seal_last-open r last v.kept e pending,
            persist_appended u times ops garbage k l good q (sealed last) n
                (sealed-back r last v.kept e) qe refl o s,
          )
          (settled-Inv u times ops garbage k l good r (cs ++ n ∷ []) (n.is_closed || true) false v
            w.linked w.storable (λ untouched. absurd (ground (arith, untouched))))
  ]
