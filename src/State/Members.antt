-- ===== src/State/Members.antt =====
-- The sets of ids are determined by their members: the order and the repeats of what a set is
-- collected from do not matter.
use git_cvs_fast_import.Prelude.{
  ℕ, List, [], ◌∷◌, true, ◌||◌, ◌==◌, ◌≡◌, ◌<◌, refl, sym, ◌∙◌, arith,
}
use git_cvs_fast_import.State.IdSet.{mem, set_insert, collect_onto, collect}

-- Ascending, each member once, and above `b`.
abbrev pub Above : ℕ → List ℕ → Type 0
Above b [] = Unit
Above b (x ∷ xs) = (b < x) × Above x xs

abbrev pub Ascending : List ℕ → Type 0
Ascending [] = Unit
Ascending (x ∷ xs) = Above x xs

pub mem-set_insert : (z x : ℕ) (s : List ℕ) → mem z (set_insert x s) ≡ ((z == x) || mem z s)
unfolding set_insert
mem-set_insert z x [] = refl
mem-set_insert z x (y ∷ ys) = ground (arith, mem-set_insert z x ys)

Above-set_insert : (b x : ℕ) (s : List ℕ) → b < x → Above b s → Above b (set_insert x s)
unfolding set_insert
Above-set_insert b x [] h a = (h, tt)
Above-set_insert b x (y ∷ ys) h (by, a) = ground (arith, Above-set_insert y x ys)

pub set_insert-Ascending : (x : ℕ) (s : List ℕ) → Ascending s → Ascending (set_insert x s)
unfolding set_insert
set_insert-Ascending x [] a = tt
set_insert-Ascending x (y ∷ ys) a = ground (arith, Above-set_insert y x ys)

mem-collect_onto : (z : ℕ) (s xs : List ℕ) → mem z (collect_onto s xs) ≡ (mem z s || mem z xs)
unfolding collect_onto
mem-collect_onto z s [] = ground arith
mem-collect_onto z s (x ∷ xs) =
    ground (arith, mem-collect_onto z (set_insert x s) xs, mem-set_insert z x s)

collect_onto-Ascending : (s xs : List ℕ) → Ascending s → Ascending (collect_onto s xs)
unfolding collect_onto
collect_onto-Ascending s [] a = a
collect_onto-Ascending s (x ∷ xs) a =
    collect_onto-Ascending (set_insert x s) xs (set_insert-Ascending x s a)

pub mem-collect : (z : ℕ) (xs : List ℕ) → mem z (collect xs) ≡ mem z xs
unfolding collect
mem-collect z xs = mem-collect_onto z [] xs

pub collect-Ascending : (xs : List ℕ) → Ascending (collect xs)
unfolding collect
collect-Ascending xs = collect_onto-Ascending [] xs tt

-- Two sets have the same members.
abbrev pub SameMembers : List ℕ → List ℕ → Type 0
SameMembers xs ys = (z : ℕ) → mem z xs ≡ mem z ys

mem-Above : (b z : ℕ) (s : List ℕ) → Above b s → mem z s ≡ true → b < z
mem-Above b z [] a h = absurd (ground arith)
mem-Above b z (y ∷ ys) (by, a) h = ground (arith, mem-Above y z ys a)

heads_eq :
    (x y : ℕ) (xs ys : List ℕ) → Above x xs → Above y ys → SameMembers (x ∷ xs) (y ∷ ys) → x ≡ y
heads_eq x y xs ys ax ay h = ground (arith, h x, h y, mem-Above x y xs ax, mem-Above y x ys ay)

tails_same :
    (x y : ℕ) (xs ys : List ℕ)
    → Above x xs
    → Above y ys
    → x ≡ y
    → SameMembers (x ∷ xs) (y ∷ ys)
    → SameMembers xs ys
tails_same x y xs ys ax ay e h z = ground (arith, h z, mem-Above x z xs ax, mem-Above y z ys ay)

Above-Ascending : (b : ℕ) (s : List ℕ) → Above b s → Ascending s
Above-Ascending b [] a = tt
Above-Ascending b (x ∷ xs) (above, a) = a

pub Ascending-unique : (xs ys : List ℕ) → Ascending xs → Ascending ys → SameMembers xs ys → xs ≡ ys
Ascending-unique [] [] ax ay h = refl
Ascending-unique [] (y ∷ ys) ax ay h = absurd (ground (arith, h y))
Ascending-unique (x ∷ xs) [] ax ay h = absurd (ground (arith, h x))
Ascending-unique (x ∷ xs) (y ∷ ys) ax ay h =
    let e = heads_eq x y xs ys ax ay h in
    let rest =
      Ascending-unique xs ys (Above-Ascending x xs ax) (Above-Ascending y ys ay)
        (tails_same x y xs ys ax ay e h) in
    λ i. e i ∷ rest i

pub collect-same : (xs ys : List ℕ) → SameMembers xs ys → collect xs ≡ collect ys
collect-same xs ys h =
    Ascending-unique (collect xs) (collect ys) (collect-Ascending xs) (collect-Ascending ys)
      (λ z. mem-collect z xs ∙ h z ∙ sym (mem-collect z ys))
