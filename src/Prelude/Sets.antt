-- ===== src/Prelude/Sets.antt =====
-- Lists without repetition as finite sets, over a Boolean equality, and the pigeonhole principle.
use Prim.Native.Nat.{suc, ◌≤◌, ◌<◌}
use mathlib.Core.Path.{◌≡◌, refl}
use mathlib.Core.Logic.{◌↔◌}
use mathlib.Core.Bool.{Bool, true, false, ◌&&◌, ◌||◌, not}
use mathlib.Core.List.{List, [], ◌∷◌}
use native.Mathlib.Omega.{arith}
use video_captioner_r.Prelude.Tests.{if◌then◌else◌}
use video_captioner_r.Prelude.Lists.{length}

module _ {ℓ} {A : Type ℓ} (eq : A → A → Bool) where
  -- `xs.iter().any(|y| y == x)`.
  abbrev pub has : A → List A → Bool
  has x [] = false
  has x (y ∷ ys) = eq y x || has x ys

  abbrev pub distinct : List A → Bool
  distinct [] = true
  distinct (x ∷ xs) = not (has x xs) && distinct xs

  abbrev pub subset : List A → List A → Bool
  subset [] ys = true
  subset (x ∷ xs) ys = has x ys && subset xs ys

  -- Without the first occurrence.
  abbrev pub erase : A → List A → List A
  erase x [] = []
  erase x (y ∷ ys) = if eq y x then ys else y ∷ erase x ys

  length-erase : (x : A) (ys : List A) → has x ys ≡ true → length ys ≡ suc (length (erase x ys))
  length-erase x [] h = cc
  length-erase x (y ∷ ys) h = ground (arith, length-erase x ys)

  module _ (eq_iff : (a b : A) → (eq a b ≡ true) ↔ (a ≡ b)) where
    has-erase :
        (x z : A) (ys : List A) → has z ys ≡ true → eq x z ≡ false → has z (erase x ys) ≡ true
    has-erase x z [] h n = cc
    has-erase x z (y ∷ ys) h n =
        ground (arith, has-erase x z ys, eq_iff y x, eq_iff y z, eq_iff x z)

    has_of_erase : (x z : A) (ys : List A) → has z (erase x ys) ≡ true → has z ys ≡ true
    has_of_erase x z [] h = cc
    has_of_erase x z (y ∷ ys) h = ground (arith, has_of_erase x z ys)

    subset-erase :
        (x : A) (xs ys : List A)
        → has x xs ≡ false
        → subset xs ys ≡ true
        → subset xs (erase x ys) ≡ true
    subset-erase x [] ys n s = refl
    subset-erase x (z ∷ xs) ys n s =
        ground (arith, has-erase x z ys, subset-erase x xs ys, eq_iff x z, eq_iff z x)

    -- Distinct members are no more than the list they come from.
    pub length_of_subset :
        (xs ys : List A) → distinct xs ≡ true → subset xs ys ≡ true → length xs ≤ length ys
    length_of_subset [] ys d s = omega arith
    length_of_subset (x ∷ xs) ys d s =
        ground (arith, length-erase x ys, subset-erase x xs ys, length_of_subset xs (erase x ys))

    -- If they are as many, they are all of it.
    pub has_of_subset :
        (xs ys : List A) (z : A)
        → distinct xs ≡ true
        → subset xs ys ≡ true
        → length ys ≡ length xs
        → has z ys ≡ true
        → has z xs ≡ true
    has_of_subset [] [] z d s l h = cc
    has_of_subset [] (y ∷ ys) z d s l h = absurd (omega arith)
    has_of_subset (x ∷ xs) ys z d s l h = ground (
      arith,
      length-erase x ys,
      subset-erase x xs ys,
      has-erase x z ys,
      has_of_subset xs (erase x ys) z,
    )

    subset_skip :
        (y : A) (xs ys : List A)
        → has y xs && not (has y ys) ≡ false
        → subset xs (y ∷ ys) ≡ true
        → subset xs ys ≡ true
    subset_skip y [] ys n s = refl
    subset_skip y (x ∷ xs) ys n s = ground (arith, subset_skip y xs ys, eq_iff y x, eq_iff x y)

    distinct-erase : (x : A) (xs : List A) → distinct xs ≡ true → distinct (erase x xs) ≡ true
    distinct-erase x [] d = refl
    distinct-erase x (y ∷ xs) d = ground (arith, distinct-erase x xs, has_of_erase x y xs)

    subset_of_erase :
        (y : A) (xs ys : List A)
        → distinct xs ≡ true
        → subset xs (y ∷ ys) ≡ true
        → subset (erase y xs) ys ≡ true
    subset_of_erase y [] ys d s = refl
    subset_of_erase y (x ∷ xs) ys d s =
        ground (arith, subset_of_erase y xs ys, subset_skip y xs ys, eq_iff x y, eq_iff y x)

    -- If the list repeats a member, they are fewer.
    pub length_of_repeated :
        (xs ys : List A)
        → distinct xs ≡ true
        → subset xs ys ≡ true
        → distinct ys ≡ false
        → length xs < length ys
    length_of_repeated xs [] d s r = cc
    length_of_repeated xs (y ∷ ys) d s r = ground (
      arith,
      subset_skip y xs ys,
      length_of_subset xs ys,
      length_of_repeated xs ys,
      length-erase y xs,
      distinct-erase y xs,
      subset_of_erase y xs ys,
      length_of_repeated (erase y xs) ys,
    )
