-- ===== src/Prelude/Assoc.antt =====
-- A map as an association list, with the laws of its operations in `if` form.
use mathlib.Core.Path.{◌≡◌, refl, subst}
use mathlib.Core.Logic.{inl, inr}
use mathlib.Core.Option.{Option, none, some}
use mathlib.Core.List.{List, [], ◌∷◌}
use native.Mathlib.Omega.{arith}
use git_cvs_fast_import.Prelude.Tests.{if◌then◌else◌, Bool-cases}
use git_cvs_fast_import.Prelude.Lists.{All}
use git_cvs_fast_import.Prelude.Equality.{Eq, ◌=?◌}

-- The entries of a `HashMap` or `BTreeMap`; the keys differ.
abbrev pub Assoc {ℓ κ} : Type ℓ → Type κ → Type (ℓ ⊔ κ)
Assoc K V = List (K × V)

-- `Option::unwrap_or`
abbrev pub or_else {ℓ} : {V : Type ℓ} → Option V → V → V
or_else none d = d
or_else (some v) d = v

module _ {ℓ κ} {K : Type ℓ} {V : Type κ} ⦃e : Eq K⦄ where
  -- `HashMap::get`
  unfoldable pub lookup : K → Assoc K V → Option V
  lookup k ((j, found) ∷ rest) = if j =? k then some found else lookup k rest
  lookup k [] = none

  -- `HashMap::insert`
  unfoldable pub insert : K → V → Assoc K V → Assoc K V
  insert k v ((j, old) ∷ rest) = if j =? k then (k, v) ∷ rest else (j, old) ∷ insert k v rest
  insert k v [] = (k, v) ∷ []

  -- `HashMap::entry(k).or_insert_with(|| d)` with `f` applied to the value in place
  unfoldable pub upsert : K → V → (V → V) → Assoc K V → Assoc K V
  upsert k d f [] = (k, f d) ∷ []
  upsert k d f ((j, w) ∷ m) = if j =? k then (j, f w) ∷ m else (j, w) ∷ upsert k d f m

  pub lookup-insert :
      (k j : K) (v : V) (m : Assoc K V)
      → lookup j (insert k v m) ≡ (if k =? j then some v else lookup j m)
  unfolding lookup insert
  lookup-insert k j v ((i, old) ∷ rest) =
      let later = lookup-insert k j v rest in
      ground (arith, later, e.beq_iff i j, e.beq_iff i k, e.beq_iff k j)
  lookup-insert k j v [] = refl

  pub lookup-upsert :
      (k j : K) (d : V) (f : V → V) (m : Assoc K V)
      → lookup j (upsert k d f m)
        ≡ (if k =? j then some (f (or_else (lookup j m) d)) else lookup j m)
  unfolding lookup upsert
  lookup-upsert k j d f [] = ground arith
  lookup-upsert k j d f ((i, w) ∷ m) =
      ground (arith, e.beq_iff k j, e.beq_iff i k, e.beq_iff i j, lookup-upsert k j d f m)

  -- What holds of every entry holds of what is found.
  pub lookup-All {ι} :
      (P : K → V → Type ι) (k : K) (v : V) (m : Assoc K V)
      → All (λ entry. P entry.0 entry.1) m
      → lookup k m ≡ some v
      → P k v
  unfolding lookup
  lookup-All P k v [] each found = absurd cc
  lookup-All P k v ((j, w) ∷ m) (first, each) found = elim (Bool-cases (j =? k)) [
    | inl same ↦
        let value : w ≡ v = ground (arith, found, same) in
        subst (λ x. P k x) value (subst (λ i. P i w) ((e.beq_iff j k).0 same) first)
    | inr other ↦
        let later : lookup k m ≡ some v = ground (arith, found, other) in
        lookup-All P k v m each later
  ]
