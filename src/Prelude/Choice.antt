-- ===== src/Prelude/Choice.antt =====
-- `Ordering::then_with`, `Ordering::reverse` by swapped arguments, and `Iterator::min_by`.
use Prim.Native.Nat.{ℕ, Ordering, ◌-◌}
use mathlib.Core.List.{List, [], ◌∷◌}
use mathlib.Core.Option.{Option, none, some}
use video_captioner_r.Prelude.Lists.{All}
use video_captioner_r.Prelude.Tests.{leb, if◌then◌else◌}

abbrev pub then_with : Ordering → Ordering → Ordering
then_with Ordering.eq o = o
then_with o _ = o

-- `u64::abs_diff`.
abbrev pub abs_diff : ℕ → ℕ → ℕ
abs_diff a b = if leb a b then b - a else a - b

module _ {ℓ} {A : Type ℓ} (cmp : A → A → Ordering) where
  -- Of two equal elements the earlier one stays.
  abbrev pub pick : A → A → A
  pick x y = elim (cmp x y) [ Ordering.gt ↦ y | _ ↦ x ]

  abbrev pub fold_min : A → List A → A
  fold_min x [] = x
  fold_min x (y ∷ ys) = fold_min (pick x y) ys

  abbrev pub min_by : List A → Option A
  min_by [] = none
  min_by (x ∷ xs) = some (fold_min x xs)

  pick-has {κ} : (P : A → Type κ) (x y : A) → P x → P y → P (pick x y)
  pick-has P x y h k = elim (cmp x y) as (λ o. P (elim o [ Ordering.gt ↦ y | _ ↦ x ])) [
    | Ordering.gt ↦ k
    | Ordering.lt ↦ h
    | Ordering.eq ↦ h
  ]

  -- What the minimum has of a property that all elements have.
  pub fold_min-All {κ} : (P : A → Type κ) (x : A) (xs : List A) → P x → All P xs → P (fold_min x xs)
  fold_min-All P x [] h hs = h
  fold_min-All P x (y ∷ ys) h hs = fold_min-All P (pick x y) ys (pick-has P x y h hs.0) hs.1

  -- The minimum is related to every element by what relates each choice to its two candidates.
  pub fold_min-least {κ} :
      (R : A → A → Type κ) (x : A) (xs : List A)
      → ((a : A) → R a a)
      → ((a b c : A) → R a b → R b c → R a c)
      → ((a b : A) → R (pick a b) a × R (pick a b) b)
      → R (fold_min x xs) x × All (R (fold_min x xs)) xs
  fold_min-least R x [] r t p = (r x, tt)
  fold_min-least R x (y ∷ ys) r t p =
      let (least, others) = fold_min-least R (pick x y) ys r t p in
      let (left, right) = p x y in (t _ _ _ least left, (t _ _ _ least right, others))
