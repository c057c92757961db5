-- ===== src/Paths/Tests.antt =====
-- Paths taken apart, as the documentation of `std::path` has them.
use git_cvs_fast_import.Prelude.{[], ◌∷◌, none, some, codes, ◌≡◌, refl}
use git_cvs_fast_import.Paths.{
  FilePath, root, dot_dot, single_dot, parent, file_name, strip_prefix, join, from_name,
}

abbrev foo_bar : FilePath
foo_bar = root ∷ codes "foo" ∷ codes "bar" ∷ []

test_parent : (parent foo_bar ≡ some (root ∷ codes "foo" ∷ [])) × (parent (root ∷ []) ≡ none)
unfolding parent
test_parent = (refl, refl)

test_file_name :
    (file_name foo_bar ≡ some (codes "bar"))
    × (file_name (codes "foo" ∷ dot_dot ∷ []) ≡ none)
    × (file_name (root ∷ []) ≡ none)
unfolding file_name
test_file_name = (refl, refl, refl)

test_strip_prefix :
    (strip_prefix foo_bar (root ∷ codes "foo" ∷ []) ≡ some (codes "bar" ∷ []))
    × (strip_prefix foo_bar (codes "foo" ∷ []) ≡ none)
unfolding strip_prefix
test_strip_prefix = (refl, refl)

test_join :
    (join foo_bar (from_name (codes "x")) ≡ root ∷ codes "foo" ∷ codes "bar" ∷ codes "x" ∷ [])
    × (join foo_bar (from_name single_dot) ≡ foo_bar)
    × (join foo_bar (from_name []) ≡ foo_bar)
unfolding join
test_join = (refl, refl, refl)
