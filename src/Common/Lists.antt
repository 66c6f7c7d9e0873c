-- ===== src/Common/Lists.antt =====
-- Lists measured by native numbers, and a list used as a `std::vector` at its back.
use Prim.Native.Nat.{ℕ, zero, suc, ◌+◌, ◌-◌, min}
use mathlib.Core.Path.{◌≡◌, refl, ap}
use mathlib.Core.Logic.{◌≢◌}
use mathlib.Core.Bool.{Bool}
use mathlib.Core.List.{List, [], ◌∷◌, ◌++◌}
use mathlib.Core.Option.{Option, none, some, some-injective}
use native.Mathlib.Omega.{arith}
use mathlib.Core.List.{map}
use mathlib.Core.Logic.{inl, inr}
use package.trading_chart_viewer.Common.Tests.{if◌then◌else◌, Bool-cases}

module _ {ℓ} {A : Type ℓ} where
  abbrev pub length : List A → ℕ
  length [] = 0
  length (x ∷ xs) = suc (length xs)

  abbrev pub take : ℕ → List A → List A
  take zero xs = []
  take (suc n) [] = []
  take (suc n) (x ∷ xs) = x ∷ take n xs

  abbrev pub drop : ℕ → List A → List A
  drop zero xs = xs
  drop (suc n) [] = []
  drop (suc n) (x ∷ xs) = drop n xs

  abbrev pub replicate : ℕ → A → List A
  replicate zero a = []
  replicate (suc n) a = a ∷ replicate n a

  pub length-append : (xs ys : List A) → length (xs ++ ys) ≡ length xs + length ys
  length-append [] ys = omega arith
  length-append (x ∷ xs) ys = omega (arith, length-append xs ys)

  -- `vector::back`, with `none` for the empty vector.
  abbrev pub back : List A → Option A
  back [] = none
  back (x ∷ []) = some x
  back (x ∷ y ∷ r) = back (y ∷ r)

  -- The assignment `vec.back() = a`.
  abbrev pub set_back : List A → A → List A
  set_back [] a = []
  set_back (x ∷ []) a = a ∷ []
  set_back (x ∷ y ∷ r) a = x ∷ set_back (y ∷ r) a

  abbrev pub keep : (A → Bool) → List A → List A
  keep p [] = []
  keep p (x ∷ xs) = let rest = keep p xs in if p x then x ∷ rest else rest

  abbrev pub All {κ} : (A → Type κ) → List A → Type κ
  All P [] = Unit
  All P (x ∷ xs) = P x × All P xs

module _ {ℓ} {A : Type ℓ} where
  pub back-append : (xs : List A) (a : A) → back (xs ++ a ∷ []) ≡ some a
  back-append [] a = refl
  back-append (x ∷ []) a = refl
  back-append (x ∷ y ∷ r) a = back-append (y ∷ r) a

  pub back-cons_ne_none : (x : A) (r : List A) → back (x ∷ r) ≢ none
  back-cons_ne_none x [] e = cc
  back-cons_ne_none x (y ∷ r) e = back-cons_ne_none y r e

  pub length-take : (n : ℕ) (xs : List A) → length (take n xs) ≡ min n (length xs)
  length-take zero xs = omega arith
  length-take (suc n) [] = omega arith
  length-take (suc n) (x ∷ xs) = omega (arith, length-take n xs)

  pub length-drop : (n : ℕ) (xs : List A) → length (drop n xs) ≡ length xs - n
  length-drop zero xs = omega arith
  length-drop (suc n) [] = omega arith
  length-drop (suc n) (x ∷ xs) = omega (arith, length-drop n xs)

  pub length-replicate : (n : ℕ) (a : A) → length (replicate n a) ≡ n
  length-replicate zero a = refl
  length-replicate (suc n) a = ap suc (length-replicate n a)

  pub All-append {κ} : (P : A → Type κ) (xs ys : List A) → All P xs → All P ys → All P (xs ++ ys)
  All-append P [] ys h k = k
  All-append P (x ∷ xs) ys h k = (h.0, All-append P xs ys h.1 k)

  pub All-back {κ} : (P : A → Type κ) (xs : List A) (l : A) → All P xs → back xs ≡ some l → P l
  All-back P [] l h e = cc
  All-back P (x ∷ []) l h e = rw (← some-injective _ _ e) h.0
  All-back P (x ∷ y ∷ r) l h e = All-back P (y ∷ r) l h.1 e

  -- All elements but the last.
  unfoldable pub front : List A → List A
  front [] = []
  front (x ∷ []) = []
  front (x ∷ y ∷ r) = x ∷ front (y ∷ r)

  pub front-back : (xs : List A) (l : A) → back xs ≡ some l → xs ≡ front xs ++ l ∷ []
  unfolding front
  front-back [] l e = cc
  front-back (x ∷ []) l e = cc
  front-back (x ∷ y ∷ r) l e = ap (◌∷◌ x) (front-back (y ∷ r) l e)

  pub set_back-front :
      (xs : List A) (l a : A) → back xs ≡ some l → set_back xs a ≡ front xs ++ a ∷ []
  unfolding front
  set_back-front [] l a e = cc
  set_back-front (x ∷ []) l a e = refl
  set_back-front (x ∷ y ∷ r) l a e = ap (◌∷◌ x) (set_back-front (y ∷ r) l a e)

  pub back-map {κ} :
      {B : Type κ} (f : A → B) (xs : List A) (b : B)
      → back (map f xs) ≡ some b
      → (a : A) × (back xs ≡ some a) × (f a ≡ b)
  back-map f [] b e = cc
  back-map f (x ∷ []) b e = (x, refl, some-injective _ _ e)
  back-map f (x ∷ y ∷ r) b e = back-map f (y ∷ r) b e

  pub keep-append : (p : A → Bool) (xs ys : List A) → keep p (xs ++ ys) ≡ keep p xs ++ keep p ys
  keep-append p [] ys = refl
  keep-append p (x ∷ xs) ys = ground (arith, keep-append p xs ys)

  pub All-keep {κ} : (P : A → Type κ) (p : A → Bool) (xs : List A) → All P xs → All P (keep p xs)
  All-keep P p [] h = tt
  All-keep P p (x ∷ xs) h = elim (Bool-cases (p x)) [
    | inl e ↦ rw e (h.0, All-keep P p xs h.1)
    | inr e ↦ rw e (All-keep P p xs h.1)
  ]

  pub All-set_back {κ} :
      (P : A → Type κ) (xs : List A) (a : A) → All P xs → P a → All P (set_back xs a)
  All-set_back P [] a h k = tt
  All-set_back P (x ∷ []) a h k = (k, tt)
  All-set_back P (x ∷ y ∷ r) a h k = (h.0, All-set_back P (y ∷ r) a h.1 k)

  pub back-set_back : (xs : List A) (l a : A) → back xs ≡ some l → back (set_back xs a) ≡ some a
  back-set_back [] l a e = cc
  back-set_back (x ∷ []) l a e = refl
  back-set_back (x ∷ y ∷ []) l a e = refl
  back-set_back (x ∷ y ∷ z ∷ r) l a e = back-set_back (y ∷ z ∷ r) l a e

  pub All-front {κ} : (P : A → Type κ) (xs : List A) → All P xs → All P (front xs)
  unfolding front
  All-front P [] h = tt
  All-front P (x ∷ []) h = tt
  All-front P (x ∷ y ∷ r) h = (h.0, All-front P (y ∷ r) h.1)

  pub back-none : (xs : List A) → back xs ≡ none → xs ≡ []
  back-none [] e = refl
  back-none (x ∷ r) e = absurd (back-cons_ne_none x r e)
