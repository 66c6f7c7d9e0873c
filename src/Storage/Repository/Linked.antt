-- ===== src/Storage/Repository/Linked.antt =====
-- Series without holes: each candle opens one interval after the one before, and all but the last
-- are closed.
use mathlib.Core.List.{append-nil}
use mathlib.Core.Option.{some-injective}
use trading_chart_viewer.Common.{
  ◌≡◌, refl, Bool, true, false, ◌&&◌, not, some, List, [], ◌∷◌, ◌++◌, back, set_back, front, keep,
  keep-append, arith, if◌then◌else◌,
}
use trading_chart_viewer.Common.Int.{ℤ, pos, ◌+ℤ◌, ◌<ℤ◌, int_laws}
use trading_chart_viewer.Domain.{Candle, RepoMetadata}
use trading_chart_viewer.Storage.Repository.State.{metadata_loop, count_closed}

module _ {D : Type 0} where
  abbrev pub Linked : ℤ → List (Candle D) → Type 0
  Linked step [] = Unit
  Linked step (c ∷ []) = Unit
  Linked step (c ∷ d ∷ r) =
      (c.is_closed ≡ true) × (d.open_time ≡ c.open_time +ℤ step) × Linked step (d ∷ r)

  pub Linked-set_back :
      (step : ℤ) (cs : List (Candle D)) (l n : Candle D)
      → Linked step cs
      → back cs ≡ some l
      → n.open_time ≡ l.open_time
      → Linked step (set_back cs n)
  Linked-set_back step [] l n h e o = tt
  Linked-set_back step (c ∷ []) l n h e o = tt
  Linked-set_back step (c ∷ d ∷ []) l n h e o = ground arith
  Linked-set_back step (c ∷ d ∷ f ∷ r) l n h e o =
      (h.0, h.1, Linked-set_back step (d ∷ f ∷ r) l n h.2 e o)

  pub Linked-append :
      (step : ℤ) (cs : List (Candle D)) (l n : Candle D)
      → Linked step cs
      → back cs ≡ some l
      → l.is_closed ≡ true
      → n.open_time ≡ l.open_time +ℤ step
      → Linked step (cs ++ n ∷ [])
  Linked-append step [] l n h e closed o = tt
  Linked-append step (c ∷ []) l n h e closed o = ground arith
  Linked-append step (c ∷ d ∷ r) l n h e closed o =
      (h.0, h.1, Linked-append step (d ∷ r) l n h.2 e closed o)

  abbrev pub closed : List (Candle D) → List (Candle D)
  closed = keep (λ c. c.is_closed)

  pub closed-front :
      (step : ℤ) (cs : List (Candle D)) → Linked step cs → closed (front cs) ≡ front cs
  unfolding front
  closed-front step [] h = refl
  closed-front step (c ∷ []) h = refl
  closed-front step (c ∷ d ∷ r) h = rw (h.0, closed-front step (d ∷ r) h.2)

  pub closed-sealed :
      (step : ℤ) (cs : List (Candle D)) (l : Candle D)
      → Linked step cs
      → back cs ≡ some l
      → l.is_closed ≡ true
      → closed cs ≡ cs
  closed-sealed step [] l h e c = refl
  closed-sealed step (x ∷ []) l h e c = ground arith
  closed-sealed step (x ∷ y ∷ r) l h e c = rw (h.0, closed-sealed step (y ∷ r) l h.2 e c)

  pub closed-append_open :
      (cs : List (Candle D)) (n : Candle D)
      → n.is_closed ≡ false
      → closed (cs ++ n ∷ []) ≡ closed cs
  closed-append_open cs n c =
      rw (keep-append (λ (x : Candle D). x.is_closed) cs (n ∷ []), c) (append-nil (closed cs))

  -- The candle before the last is earlier.
  pub front-older :
      (step : ℤ) (cs : List (Candle D)) (l p : Candle D)
      → pos 0 <ℤ step
      → Linked step cs
      → back cs ≡ some l
      → back (front cs) ≡ some p
      → p.open_time <ℤ l.open_time
  unfolding front
  front-older step [] l p s h e f = cc
  front-older step (c ∷ []) l p s h e f = cc
  front-older step (c ∷ d ∷ []) l p s h e f =
      rw (← some-injective _ _ e, ← some-injective _ _ f, h.1) (omega int_laws)
  front-older step (c ∷ d ∷ g ∷ r) l p s h e f = front-older step (d ∷ g ∷ r) l p s h.2 e f

  -- An open candle at the end counts for nothing in the metadata.
  pub metadata_loop-append_open :
      (first : Bool) (m : RepoMetadata) (cs : List (Candle D)) (n : Candle D)
      → n.is_closed ≡ false
      → metadata_loop first m (cs ++ n ∷ []) ≡ metadata_loop first m cs
  unfolding metadata_loop
  metadata_loop-append_open first m [] n o = rw o refl
  metadata_loop-append_open first m (c ∷ cs) n o =
      metadata_loop-append_open (first && not c.is_closed)
        (if c.is_closed then count_closed first m c else m) cs n o
