-- ===== src/Storage/Repository/Invariant.antt =====
-- The invariant of the repository: the series has no hole, the data file holds the records of its
-- closed candles in order, and the metadata describe them.
use trading_chart_viewer.Common.{
  ℕ, ◌*◌, ◌≡◌, refl, ap, sym, ◌∙◌, Bool, true, false, not, ◌&&◌, some, List, [], ◌∷◌, ◌++◌, map,
  inl, inr, back, set_back, front, front-back, set_back-front, All, arith, Bool-cases,
}
use trading_chart_viewer.Common.Int.{ℤ, pos, ◌+ℤ◌}
use trading_chart_viewer.Common.Double.{DoubleOps}
use trading_chart_viewer.Core.{TimeUtils, IsTimeUtils}
use trading_chart_viewer.Domain.{Candle, no_metadata}
use trading_chart_viewer.Storage.Record.{PriceData}
use trading_chart_viewer.Storage.Manager.Save.{IsUsable, upsert}
use trading_chart_viewer.Storage.Repository.State.{Layout, Repository, metadata_loop, refresh_if}
use trading_chart_viewer.Storage.Repository.Append.{persist_closed}
use trading_chart_viewer.Storage.Repository.Storable.{IsLayout, IsStorable, disk_record}
use trading_chart_viewer.Storage.Repository.Linked.{Linked, closed, closed-append_open}
use trading_chart_viewer.Storage.Repository.Persist.{
  stored, persist_closed-upsert, upsert-replaced, upsert-appended,
}

-- The candles and the file.
pub record IsStored {D : Type 0} (u : TimeUtils) (ops : DoubleOps D) (k : ℕ) (l : Layout)
    (r : Repository D) : Type 0 where
  pub same_layout : r.layout ≡ l
  pub usable : IsUsable r.file
  pub linked : Linked (pos (k * 60_000)) r.candles
  pub storable : All (IsStorable k) r.candles
  pub on_disk : r.file.records ≡ stored u ops l r.candles

pub record Inv {D : Type 0} (u : TimeUtils) (ops : DoubleOps D) (k : ℕ) (l : Layout)
    (r : Repository D) : Type 0 where
  pub kept : IsStored u ops k l r
  pub counted : r.metadata ≡ metadata_loop true no_metadata r.candles

module _ {D : Type 0} (u : TimeUtils) (times : IsTimeUtils u) (ops : DoubleOps D)
    (garbage : PriceData D) (k : ℕ) (l : Layout) (good : IsLayout u k l) where
  abbrev pub step : ℤ
  step = pos (k * 60_000)

  -- The repository with other candles, and with the file that belongs to them.
  abbrev pub with_candles : Repository D → List (Candle D) → Repository D
  with_candles r cs = record r {
    candles = cs;
    file = record r.file { records = stored u ops l cs };
  }

  -- It is about the candles, the file and the layout alone.
  pub IsStored-same :
      (q r : Repository D)
      → IsStored u ops k l r
      → q.layout ≡ r.layout
      → q.file ≡ r.file
      → q.candles ≡ r.candles
      → IsStored u ops k l q
  IsStored-same q r v el ef ec = record {
    same_layout = el ∙ v.same_layout;
    usable = rw ef v.usable;
    linked = rw ec v.linked;
    storable = rw ec v.storable;
    on_disk = rw (ef, ec) v.on_disk;
  }

  pub with_candles-IsStored :
      (r : Repository D) (cs : List (Candle D))
      → IsStored u ops k l r
      → Linked step cs
      → All (IsStorable k) cs
      → IsStored u ops k l (with_candles r cs)
  with_candles-IsStored r cs v h all = record {
    same_layout = v.same_layout;
    usable = record {
      exists = v.usable.exists;
      readable = v.usable.readable;
      writable = v.usable.writable;
    };
    linked = h;
    storable = all;
    on_disk = refl;
  }

  -- Fresh metadata, or the old ones where the closed candles are the same.
  pub settled-Inv :
      (r : Repository D) (cs : List (Candle D)) (touched gap : Bool)
      → Inv u ops k l r
      → Linked step cs
      → All (IsStorable k) cs
      → (touched ≡ false
          → metadata_loop true no_metadata cs ≡ metadata_loop true no_metadata r.candles)
      → Inv u ops k l (record (refresh_if touched (with_candles r cs)) { has_gap = gap })
  unfolding refresh_if
  settled-Inv r cs true gap v h all m = record {
    kept = IsStored-same _ _ (with_candles-IsStored r cs v.kept h all) refl refl refl;
    counted = refl;
  }
  settled-Inv r cs false gap v h all m = record {
    kept = IsStored-same _ _ (with_candles-IsStored r cs v.kept h all) refl refl refl;
    counted = v.counted ∙ sym (m refl);
  }

  pub persist_new :
      (r : Repository D) (cs : List (Candle D)) (n : Candle D)
      → IsStored u ops k l r
      → n.is_closed ≡ true
      → IsStorable k n
      → upsert (stored u ops l r.candles) (disk_record u ops l n) ≡ stored u ops l cs
      → persist_closed u ops garbage (record r { candles = cs }) n ≡ (true, with_candles r cs)
  persist_new r cs n v c s e =
      persist_closed-upsert u times ops garbage k l good (record r { candles = cs }) r.candles n
        v.same_layout v.usable v.storable v.on_disk c s
      ∙ ap (λ xs. (true, record r { candles = cs; file = record r.file { records = xs } })) e

  pub persist_open :
      (r : Repository D) (cs : List (Candle D)) (n : Candle D)
      → IsStored u ops k l r
      → n.is_closed ≡ false
      → stored u ops l r.candles ≡ stored u ops l cs
      → persist_closed u ops garbage (record r { candles = cs }) n ≡ (false, with_candles r cs)
  unfolding persist_closed
  persist_open r cs n v c e = rw c (
      ap (λ xs. (false, record r { candles = cs; file = record r.file { records = xs } }))
        (v.on_disk ∙ e))

  pub open_last :
      (last n : Candle D)
      → (last.is_closed && not n.is_closed) ≡ false
      → n.is_closed ≡ false
      → last.is_closed ≡ false
  open_last last n ok c = ground arith

  closed-set_back :
      (cs : List (Candle D)) (last n : Candle D)
      → back cs ≡ some last
      → last.is_closed ≡ false
      → n.is_closed ≡ false
      → closed cs ≡ closed (set_back cs n)
  closed-set_back cs last n e pending c =
      ap closed (front-back cs last e)
      ∙ closed-append_open (front cs) last pending
      ∙ sym (closed-append_open (front cs) n c)
      ∙ ap closed (sym (set_back-front cs last n e))

  -- The candle `n` in the place of the last one, `last`.
  pub persist_replaced :
      (r : Repository D) (last n : Candle D)
      → IsStored u ops k l r
      → back r.candles ≡ some last
      → n.open_time ≡ last.open_time
      → IsStorable k n
      → (last.is_closed && not n.is_closed) ≡ false
      → persist_closed u ops garbage (record r { candles = set_back r.candles n }) n
        ≡ (n.is_closed, with_candles r (set_back r.candles n))
  persist_replaced r last n v e o s ok = elim (Bool-cases n.is_closed) [
    | inl c ↦
        persist_new r (set_back r.candles n) n v c s (
          upsert-replaced u times ops garbage k l good r.candles last n v.linked v.storable e o c s)
        ∙ ap (λ b. (b, with_candles r (set_back r.candles n))) (sym c)
    | inr c ↦
        persist_open r (set_back r.candles n) n v c (
          ap (map (disk_record u ops l))
            (closed-set_back r.candles last n e (open_last last n ok c) c))
        ∙ ap (λ b. (b, with_candles r (set_back r.candles n))) (sym c)
  ]

  pub persist_appended :
      (r : Repository D) (last n : Candle D)
      → IsStored u ops k l r
      → back r.candles ≡ some last
      → last.is_closed ≡ true
      → n.open_time ≡ last.open_time +ℤ step
      → IsStorable k n
      → persist_closed u ops garbage (record r { candles = r.candles ++ n ∷ [] }) n
        ≡ (n.is_closed, with_candles r (r.candles ++ n ∷ []))
  persist_appended r last n v e sealed o s = elim (Bool-cases n.is_closed) [
    | inl c ↦
        persist_new r (r.candles ++ n ∷ []) n v c s (
          upsert-appended u times ops garbage k l good r.candles last n v.linked v.storable e sealed
            o c s)
        ∙ ap (λ b. (b, with_candles r (r.candles ++ n ∷ []))) (sym c)
    | inr c ↦
        persist_open r (r.candles ++ n ∷ []) n v c
          (ap (map (disk_record u ops l)) (sym (closed-append_open r.candles n c)))
        ∙ ap (λ b. (b, with_candles r (r.candles ++ n ∷ []))) (sym c)
  ]
