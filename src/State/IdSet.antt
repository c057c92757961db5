-- ===== src/State/IdSet.antt =====
-- `BTreeSet<file_revision::ID>`: its members in ascending order, each once.
use git_cvs_fast_import.Prelude.{ℕ, List, [], ◌∷◌, Bool, false, ◌||◌, ◌==◌, ltb, if◌then◌else◌}

-- `BTreeSet::contains`
abbrev pub mem : ℕ → List ℕ → Bool
mem x [] = false
mem x (y ∷ ys) = (x == y) || mem x ys

-- `BTreeSet::insert`
unfoldable pub set_insert : ℕ → List ℕ → List ℕ
set_insert x [] = x ∷ []
set_insert x (y ∷ ys) =
    if ltb x y then x ∷ y ∷ ys else (if x == y then y ∷ ys else y ∷ set_insert x ys)

-- `Iterator::collect` into a set that holds `s`
unfoldable pub collect_onto : List ℕ → List ℕ → List ℕ
collect_onto s [] = s
collect_onto s (x ∷ xs) = collect_onto (set_insert x s) xs

-- `Iterator::collect`
unfoldable pub collect : List ℕ → List ℕ
unfolding collect_onto set_insert
collect xs = collect_onto [] xs
