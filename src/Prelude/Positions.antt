-- ===== src/Prelude/Positions.antt =====
-- Lemmas on `position`, `get_elem?`, `set`, `all` and `any`.
use Prim.Native.Nat.{ℕ, zero, suc}
use mathlib.Core.Path.{◌≡◌, refl, ap}
use mathlib.Core.Bool.{Bool, true, false}
use mathlib.Core.List.{List, [], ◌∷◌, ◌++◌, map}
use mathlib.Core.Option.{some}
use native.Mathlib.Omega.{arith}
use video_captioner_r.Prelude.Lists.{get_elem?, set, take, all, any, position}

module _ {ℓ} {A : Type ℓ} where
  -- What `position` finds is there, and passes the test.
  pub position-get_elem? :
      (p : A → Bool) (xs : List A) (i : ℕ)
      → position p xs ≡ some i
      → (x : A) × (get_elem? xs i ≡ some x) × (p x ≡ true)
  position-get_elem? p [] i e = cc
  position-get_elem? p (x ∷ xs) zero e = (x, refl, ground arith)
  position-get_elem? p (x ∷ xs) (suc i) e = position-get_elem? p xs i (ground arith)

  -- Nothing before it does.
  pub position-first :
      (p : A → Bool) (xs : List A) (i : ℕ) → position p xs ≡ some i → any p (take i xs) ≡ false
  position-first p [] i e = cc
  position-first p (x ∷ xs) zero e = refl
  position-first p (x ∷ xs) (suc i) e = ground (arith, position-first p xs i)

  pub all-get_elem? :
      (p : A → Bool) (xs : List A) (i : ℕ) (x : A)
      → all p xs ≡ true
      → get_elem? xs i ≡ some x
      → p x ≡ true
  all-get_elem? p [] i x h e = cc
  all-get_elem? p (y ∷ xs) zero x h e = ground arith
  all-get_elem? p (y ∷ xs) (suc i) x h e = all-get_elem? p xs i x (ground arith) e

  pub all-append :
      (p : A → Bool) (xs ys : List A) → all p xs ≡ true → all p ys ≡ true → all p (xs ++ ys) ≡ true
  all-append p [] ys h k = k
  all-append p (x ∷ xs) ys h k = ground (arith, all-append p xs ys)

  pub all-set :
      (p : A → Bool) (xs : List A) (i : ℕ) (x : A)
      → all p xs ≡ true
      → p x ≡ true
      → all p (set xs i x) ≡ true
  all-set p [] i x h e = refl
  all-set p (y ∷ xs) zero x h e = ground arith
  all-set p (y ∷ xs) (suc i) x h e = ground (arith, all-set p xs i x)

  -- Writing back what is there changes nothing.
  pub set-get_elem? : (xs : List A) (i : ℕ) (x : A) → get_elem? xs i ≡ some x → set xs i x ≡ xs
  set-get_elem? [] i x e = refl
  set-get_elem? (y ∷ xs) zero x e = ground arith
  set-get_elem? (y ∷ xs) (suc i) x e = ap (◌∷◌ y) (set-get_elem? xs i x e)

  pub map-set {κ} :
      {B : Type κ} (f : A → B) (xs : List A) (i : ℕ) (x x' : A)
      → get_elem? xs i ≡ some x
      → f x' ≡ f x
      → map f (set xs i x') ≡ map f xs
  map-set f [] i x x' e h = refl
  map-set f (y ∷ xs) zero x x' e h = ground arith
  map-set f (y ∷ xs) (suc i) x x' e h = ap (◌∷◌ (f y)) (map-set f xs i x x' e h)

  pub all-map {κ} :
      {B : Type κ} (p : A → Bool) (q : B → Bool) (f : A → B) (xs : List A)
      → ((x : A) → p x ≡ true → q (f x) ≡ true)
      → all p xs ≡ true
      → all q (map f xs) ≡ true
  all-map p q f [] k h = refl
  all-map p q f (x ∷ xs) k h = ground (arith, k x, all-map p q f xs k)
