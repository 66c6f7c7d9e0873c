-- ===== src/Storage/Engine/Span.antt =====
-- The walk over the store against looking each minute up.
use trading_chart_viewer.Common.{
  ℕ, zero, suc, ◌*◌, ◌/◌, ◌≡◌, refl, ap, sym, ◌∙◌, true, false, Option, none, some, List, [], ◌∷◌,
  All, arith, Bool-cases, inl, inr,
}
use trading_chart_viewer.Common.Int.{
  ℤ, pos, ◌+ℤ◌, ◌<ℤ◌, ◌≤ℤ◌, ltb_ℤ, leb_ℤ, ◌==ℤ◌, int_laws, ==ℤ-eq, ==ℤ-ne,
}
use trading_chart_viewer.Core.{TimeUtils, IsTimeUtils}
use trading_chart_viewer.Storage.Record.{PriceData}
use trading_chart_viewer.Storage.Engine.{
  Store, Ohlc, History, make_ohlc, find, entries_from, cons_ohlc, span_loop, try_get_ohlc_span,
}
use trading_chart_viewer.Storage.Engine.Order.{Minutely, Sorted, IsStore, All-below}

abbrev pub next_minute : ℤ → ℤ
next_minute t = t +ℤ pos 60_000

next-Minutely : (t : ℤ) → Minutely t → Minutely (next_minute t)
next-Minutely t (n, e) = (suc n, rw e (omega int_laws))

-- One lookup after the other, none if one of them finds nothing.
module _ {D : Type 0} where
  abbrev pub with_record : Option (PriceData D) → Option (List (Ohlc D)) → Option (List (Ohlc D))
  with_record none rest = none
  with_record (some r) rest = cons_ohlc (make_ohlc r) rest

  unfoldable pub look_up_each : ℕ → ℤ → Store D → Option (List (Ohlc D))
  look_up_each zero t m = some []
  look_up_each (suc count) t m = with_record (find t m) (look_up_each count (next_minute t) m)

  abbrev Above : ℤ → Store D → Type 0
  Above t m = All (λ x. t <ℤ x.0) m

  find-Above : (t : ℤ) (m : Store D) → Above t m → find t m ≡ none
  unfolding find
  find-Above t [] h = refl
  find-Above t ((k, r) ∷ rest) h = rw (different t k h.0) (find-Above t rest h.1)
    where
      different : (a b : ℤ) → a <ℤ b → (a ==ℤ b) ≡ false
      different a b l = ground arith

  -- The entry before the times looked up does not matter.
  look_up_each-later :
      (count : ℕ) (t k : ℤ) (r : PriceData D) (m : Store D)
      → k <ℤ t
      → look_up_each count t ((k, r) ∷ m) ≡ look_up_each count t m
  unfolding look_up_each find
  look_up_each-later zero t k r m h = refl
  look_up_each-later (suc count) t k r m h = rw (==ℤ-ne k t h) (
      ap (with_record (find t m))
        (look_up_each-later count (next_minute t) k r m (omega (int_laws, h))))

  with_record-none : (o : Option (PriceData D)) → with_record o none ≡ none
  unfolding cons_ohlc
  with_record-none none = refl
  with_record-none (some r) = refl

  -- From one entry to the next, the keys of whole minutes go on by a minute at least.
  next-Above :
      (t : ℤ) (m : Store D)
      → Minutely t
      → All (λ x. Minutely x.0) m
      → Above t m
      → All (λ x. next_minute t ≤ℤ x.0) m
  next-Above t [] h a g = tt
  next-Above t ((k, r) ∷ rest) (n, e) ((j, f), a) g =
      (rw (e, f) (apart n j (rw (e, f) at g.0)), next-Above t rest (n, e) a g.1)
    where
      apart :
          (x y : ℕ)
          → pos (x * 60_000) <ℤ pos (y * 60_000)
          → next_minute (pos (x * 60_000)) ≤ℤ pos (y * 60_000)
      apart x y l = omega (int_laws, l)

  span_loop-look_up :
      (count : ℕ) (t : ℤ) (m : Store D)
      → Minutely t
      → Sorted m
      → All (λ x. Minutely x.0) m
      → All (λ x. t ≤ℤ x.0) m
      → span_loop next_minute count t m ≡ look_up_each count t m
  unfolding span_loop look_up_each find
  span_loop-look_up zero t m h s a g = refl
  span_loop-look_up (suc count) t [] h s a g = refl
  span_loop-look_up (suc count) t ((k, r) ∷ rest) h s a g = elim (Bool-cases (k ==ℤ t)) [
    | inl e ↦
        let same : (t ==ℤ k) ≡ true = ground (arith, e) in
        let before : k <ℤ next_minute t = rw (==ℤ-eq k t e) (omega int_laws) in
        let above = All-below t k rest g.0 s.0 in
        rw (e, same)
          (ap (cons_ohlc (make_ohlc r)) (
            span_loop-look_up count (next_minute t) rest (next-Minutely t h) s.1 a.1
              (next-Above t rest h a.1 above)
            ∙ sym (look_up_each-later count (next_minute t) k r rest before)))
    | inr e ↦
        let other : (t ==ℤ k) ≡ false = ground (arith, e) in
        rw (e, other, find-Above t rest (All-below t k rest g.0 s.0)) refl
  ]

  look_up_each-none :
      (count : ℕ) (t : ℤ) (m : Store D) → find t m ≡ none → look_up_each (suc count) t m ≡ none
  unfolding look_up_each
  look_up_each-none count t m e = rw e refl

  Above-from : (t : ℤ) (m : Store D) → Above t m → All (λ x. t ≤ℤ x.0) m
  Above-from t [] h = tt
  Above-from t (x ∷ rest) h = (omega (arith, h.0), Above-from t rest h.1)

  entries_from-look_up :
      (count : ℕ) (t : ℤ) (m : Store D)
      → Minutely t
      → Sorted m
      → All (λ x. Minutely x.0) m
      → span_loop next_minute (suc count) t (entries_from t m) ≡ look_up_each (suc count) t m
  unfolding entries_from span_loop
  entries_from-look_up count t [] h s a = sym (look_up_each-none count t [] (find-Above t [] tt))
  entries_from-look_up count t ((k, r) ∷ rest) h s a = elim (Bool-cases (t ==ℤ k)) [
    | inl e ↦
        let reached : t ≤ℤ k = ground (arith, e) in
        rw e (
          span_loop-look_up (suc count) t ((k, r) ∷ rest) h s a
            (reached, Above-from t rest (All-below t k rest reached s.0)))
    | inr e ↦ rw e (
        entries_from-look_up count t rest h s.1 a.1 ∙ elim (Bool-cases (ltb_ℤ k t)) [
          | inl before ↦ sym (look_up_each-later (suc count) t k r rest (ground (arith, before)))
          | inr after ↦
              let low : t <ℤ k = ground (arith, e, after) in
              let above = All-below t k rest (ground (arith, low)) s.0 in
              look_up_each-none count t rest (find-Above t rest above)
              ∙ sym (
                  look_up_each-none count t ((k, r) ∷ rest)
                    (find-Above t ((k, r) ∷ rest) (low, above)))
        ])
  ]

-- In a store in order, from a time that is not negative, the span of a positive number of candles is
-- what looking up the minute of the start and the minutes after it gives, one by one: all of them,
-- or nothing if one is missing.
pub try_get_ohlc_span-look_up :
    {D : Type 0} (u : TimeUtils) (times : IsTimeUtils u) (h : History D) (start count : ℕ)
    → IsStore h.entries
    → try_get_ohlc_span u h (pos start) (pos (suc count))
      ≡ look_up_each (suc count) (u.floor_to_minute_ms (pos start)) h.entries
unfolding try_get_ohlc_span
try_get_ohlc_span-look_up u times h start count v =
    let t = u.floor_to_minute_ms (pos start) in
    let some_count : leb_ℤ (pos (suc count)) (pos 0) ≡ false = ground arith in
    rw some_count (
      ap (λ m. span_loop (λ x. x +ℤ m) (suc count) t (entries_from t h.entries)) times.minute
      ∙ entries_from-look_up count t h.entries (start / 60_000, times.floors start) v.sorted
          v.aligned)
