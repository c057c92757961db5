-- ===== src/Prelude/Multiset.antt =====
-- Lists up to the order of their items, observed by the sums over them.
use mathlib.Core.List.{flat_map}
use git_cvs_fast_import.Prelude.{
  ℕ, ◌+◌, ◌≤◌, ◌≡◌, refl, List, [], ◌∷◌, ◌++◌, map, arith, All, sym, ◌∙◌,
}

module _ {ℓ} {A : Type ℓ} where
  abbrev pub total : (A → ℕ) → List A → ℕ
  total f [] = 0
  total f (x ∷ xs) = f x + total f xs

  -- The same items, each as often: every measure of the items has the same sum over both lists. (At
  -- the measure that is 1 at one item and 0 elsewhere, this is the equality of the item's counts.)
  abbrev pub SameItems : List A → List A → Type ℓ
  SameItems xs ys = (f : A → ℕ) → total f xs ≡ total f ys

  pub total-append : (f : A → ℕ) (xs ys : List A) → total f (xs ++ ys) ≡ total f xs + total f ys
  total-append f [] ys = omega arith
  total-append f (x ∷ xs) ys = omega (arith, total-append f xs ys)

  -- The items ascend by their keys.
  abbrev pub Sorted : (A → ℕ) → List A → Type 0
  Sorted key [] = Unit
  Sorted key (x ∷ xs) = All (λ y. key x ≤ key y) xs × Sorted key xs

module _ {ℓ κ} {A : Type ℓ} {B : Type κ} where
  pub total-map :
      (f : B → ℕ) (g : A → B) (xs : List A) → total f (map g xs) ≡ total (λ x. f (g x)) xs
  total-map f g [] = refl
  total-map f g (x ∷ xs) = omega (arith, total-map f g xs)

  pub total-flat_map :
      (f : B → ℕ) (g : A → List B) (xs : List A)
      → total f (flat_map g xs) ≡ total (λ x. total f (g x)) xs
  unfolding flat_map
  total-flat_map f g [] = refl
  total-flat_map f g (x ∷ xs) =
      omega (arith, total-append f (g x) (flat_map g xs), total-flat_map f g xs)

  pub flat_map-SameItems :
      (g : A → List B) (xs ys : List A)
      → SameItems xs ys
      → SameItems (flat_map g xs) (flat_map g ys)
  flat_map-SameItems g xs ys h f =
      total-flat_map f g xs ∙ h (λ x. total f (g x)) ∙ sym (total-flat_map f g ys)
