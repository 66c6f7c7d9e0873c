-- ===== src/Storage/Manager/Save.antt =====
-- What `saveRecords` does to the file.
use mathlib.Core.List.{append-nil}
use trading_chart_viewer.Common.{
  Bool-cases, ap, ◌∙◌, All-back, inl, inr, Option-cases, All, back-cons_ne_none, if◌then◌else◌, ◌≡◌,
  refl, true, false, none, some, List, [], ◌∷◌, ◌++◌, back, set_back, arith,
}
use trading_chart_viewer.Common.Int.{◌==ℤ◌, ltb_ℤ}
use trading_chart_viewer.Core.{TimeUtils}
use trading_chart_viewer.Storage.Record.{PriceData, blank, is_valid_record, normalize_record}
use trading_chart_viewer.Storage.Manager.{
  DataFile, Pending, save_records, save_open, save_step, save_loop, start_pending, write_pending,
  read_last_record, open_for_update, file_exists,
}

-- The file can be opened for reading and writing.
pub record IsUsable {D : Type 0} (f : DataFile D) : Type 0 where
  pub exists : f.exists ≡ true
  pub readable : f.readable ≡ true
  pub writable : f.writable ≡ true

-- What saving one normalised record means: it replaces a last record of its time, follows an
-- older one, and is dropped behind a newer one.
module _ {D : Type 0} where
  unfoldable pub upsert : List (PriceData D) → PriceData D → List (PriceData D)
  upsert [] n = n ∷ []
  upsert (x ∷ []) n =
      if n.open_time ==ℤ x.open_time
      then n ∷ []
      else if ltb_ℤ x.open_time n.open_time
      then x ∷ n ∷ []
      else x ∷ []
  upsert (x ∷ y ∷ r) n = x ∷ upsert (y ∷ r) n

  pub upsert-back :
      (xs : List (PriceData D)) (n l : PriceData D)
      → back xs ≡ some l
      → upsert xs n ≡ (
          if n.open_time ==ℤ l.open_time
          then set_back xs n
          else if ltb_ℤ l.open_time n.open_time
          then xs ++ n ∷ []
          else xs)
  unfolding upsert
  upsert-back [] n l e = cc
  upsert-back (x ∷ []) n l e = ground arith
  upsert-back (x ∷ y ∷ r) n l e = ground (arith, upsert-back (y ∷ r) n l e)

module _ {D : Type 0} (u : TimeUtils) (garbage : PriceData D) where
  pub save_records-usable :
      (f : DataFile D) (r : PriceData D) (rs : List (PriceData D))
      → IsUsable f
      → save_records u garbage f (r ∷ rs) ≡ save_open u garbage f (r ∷ rs)
  unfolding save_records open_for_update file_exists
  save_records-usable f r rs h = rw (h.exists, h.readable, h.writable) refl

  blank-invalid : is_valid_record (blank garbage) ≡ false
  unfolding is_valid_record blank
  blank-invalid = ground arith

  append-none : (xs : List (PriceData D)) → back xs ≡ none → xs ≡ []
  append-none [] e = refl
  append-none (x ∷ r) e = absurd (back-cons_ne_none x r e)

  -- A call that has a last record, and one record to save.
  abbrev after_last : PriceData D → Pending D
  after_last l = record { has_last = true; last_persisted = l; overwrite = none; to_append = [] }

  start_pending-last :
      (f : DataFile D) (l : PriceData D)
      → IsUsable f
      → back f.records ≡ some l
      → is_valid_record l ≡ true
      → start_pending u garbage f ≡ after_last l
  unfolding start_pending read_last_record
  start_pending-last f l h e v = rw (h.exists, h.readable, e, v) refl

  write-after_last :
      (f : DataFile D) (r l : PriceData D)
      → back f.records ≡ some l
      → is_valid_record (normalize_record u r) ≡ true
      → write_pending u f (save_loop u (after_last l) (r ∷ []))
        ≡ record f { records = upsert f.records (normalize_record u r) }
  unfolding write_pending save_loop
  write-after_last f r l e v =
      let n = normalize_record u r in
      rw (upsert-back f.records n l e, v)
        (elim (Bool-cases (n.open_time ==ℤ l.open_time)) [
          | inl same ↦ rw same (rw append-nil refl)
          | inr other ↦ rw other (elim (Bool-cases (ltb_ℤ l.open_time n.open_time)) [
            | inl later ↦ rw later refl
            | inr older ↦ rw older (rw append-nil refl)
          ])
        ])

  save_open-last :
      (f : DataFile D) (r l : PriceData D)
      → IsUsable f
      → back f.records ≡ some l
      → is_valid_record l ≡ true
      → is_valid_record (normalize_record u r) ≡ true
      → save_open u garbage f (r ∷ [])
        ≡ record f { records = upsert f.records (normalize_record u r) }
  unfolding save_open
  save_open-last f r l h e vl v =
      ap (λ p. write_pending u f (save_loop u p (r ∷ []))) (start_pending-last f l h e vl)
      ∙ write-after_last f r l e v

  save_open-empty :
      (f : DataFile D) (r : PriceData D)
      → IsUsable f
      → f.records ≡ []
      → is_valid_record (normalize_record u r) ≡ true
      → save_open u garbage f (r ∷ [])
        ≡ record f { records = upsert f.records (normalize_record u r) }
  unfolding save_open save_step upsert
  save_open-empty f r h e v = ground (arith, blank-invalid)

  -- On a file that can be updated and whose records are valid, saving one record whose normal form
  -- is valid has exactly the effect of `upsert` on the records and no other.
  pub save_records-upsert :
      (f : DataFile D) (r : PriceData D)
      → IsUsable f
      → All (λ x. is_valid_record x ≡ true) f.records
      → is_valid_record (normalize_record u r) ≡ true
      → save_records u garbage f (r ∷ [])
        ≡ record f { records = upsert f.records (normalize_record u r) }
  save_records-upsert f r h all v =
      save_records-usable f r [] h ∙ elim (Option-cases (back f.records)) [
        | inl e ↦ save_open-empty f r h (append-none f.records e) v
        | inr (l, e) ↦ save_open-last f r l h e (All-back _ f.records l all e) v
      ]
