-- ===== src/Num/Tests.antt =====
-- The tests of comma-v/src/num.rs, and the theorems at concrete inputs.
use git_cvs_fast_import.Prelude.{
  ℕ, ◌+◌, ◌≡◌, refl, List, [], ◌∷◌, codes, true, false, ◌&&◌, leb, ok, err, panic, arith,
}
use git_cvs_fast_import.Decimal.{parse_u64}
use git_cvs_fast_import.Num.{
  branch, commit, contains, to_branch, from_str, fmt, parse_int, invalid_types_for_contains,
}
use git_cvs_fast_import.Num.Contains.{
  on_branch, IsBranch, contains-on_branch, contains-sibling, contains-to_branch,
}
use git_cvs_fast_import.Num.Text.{IsParsed, from_str-fmt, from_str-IsParsed}

test_num_contains :
    (contains (branch (1 ∷ 1 ∷ 2 ∷ [])) (commit (1 ∷ 1 ∷ 2 ∷ 2 ∷ [])) ≡ ok true)
    × (contains (branch (1 ∷ 1 ∷ 2 ∷ [])) (commit (1 ∷ 1 ∷ [])) ≡ ok true)
    × (contains (branch (1 ∷ 1 ∷ 2 ∷ [])) (commit (1 ∷ 1 ∷ 3 ∷ 1 ∷ [])) ≡ ok false)
    × (contains (branch (1 ∷ 1 ∷ 2 ∷ [])) (commit (1 ∷ 1 ∷ 2 ∷ 1 ∷ 1 ∷ 1 ∷ [])) ≡ ok false)
    × (contains (branch (1 ∷ 1 ∷ 2 ∷ [])) (commit (1 ∷ 2 ∷ [])) ≡ ok false)
    × (contains (commit (1 ∷ 1 ∷ [])) (branch (1 ∷ [])) ≡ err invalid_types_for_contains)
unfolding contains
test_num_contains = (refl, refl, refl, refl, refl, refl)

test_num_parse :
    (from_str (codes "1.1") ≡ ok (commit (1 ∷ 1 ∷ [])))
    × (from_str (codes "1.2.3") ≡ ok (branch (1 ∷ 2 ∷ 3 ∷ [])))
    × (from_str (codes "1.2.0.3") ≡ ok (branch (1 ∷ 2 ∷ 3 ∷ [])))
    × (from_str [] ≡ err parse_int)
    × (from_str (codes "1.") ≡ err parse_int)
    × (from_str (codes "1.x") ≡ err parse_int)
unfolding from_str parse_u64
test_num_parse = (refl, refl, refl, refl, refl, refl)

-- A text of zeros alone is read as a commit with no numbers, which has no branch.
zero_revision : (from_str (codes "0") ≡ ok (commit [])) × (to_branch (commit []) ≡ panic)
unfolding from_str parse_u64 to_branch
zero_revision = (refl, refl)

contains-on_branch_example :
    contains (branch (1 ∷ 4 ∷ 2 ∷ [])) (commit (1 ∷ 3 ∷ []))
    ≡ ok (leb 2 (3 + 1) && on_branch (1 ∷ 4 ∷ 2 ∷ []) (1 ∷ 3 ∷ []))
contains-on_branch_example = contains-on_branch (1 ∷ 4 ∷ 2 ∷ []) (1 ∷ 3 ∷ []) tt tt

contains-sibling_example :
    contains (branch (1 ∷ 4 ∷ 2 ∷ [])) (commit (1 ∷ 2 ∷ 2 ∷ 5 ∷ [])) ≡ ok true
contains-sibling_example = contains-sibling 1 4 2 2 5 (omega arith)

test_contains-to_branch :
    (b : List ℕ) × (to_branch (commit (1 ∷ 2 ∷ 4 ∷ 7 ∷ [])) ≡ ok (branch b))
    × IsBranch b
    × (contains (branch b) (commit (1 ∷ 2 ∷ 4 ∷ 7 ∷ [])) ≡ ok true)
test_contains-to_branch = contains-to_branch 1 (2 ∷ 4 ∷ 7 ∷ []) tt

from_str-fmt_example : from_str (fmt (branch (1 ∷ 20 ∷ 3 ∷ []))) ≡ ok (branch (1 ∷ 20 ∷ 3 ∷ []))
from_str-fmt_example = from_str-fmt (branch (1 ∷ 20 ∷ 3 ∷ [])) (tt, omega arith)

read_magic : from_str (codes "1.2.0.3") ≡ ok (branch (1 ∷ 2 ∷ 3 ∷ []))
unfolding from_str parse_u64
read_magic = refl

from_str-IsParsed_example : IsParsed (branch (1 ∷ 2 ∷ 3 ∷ []))
from_str-IsParsed_example = from_str-IsParsed (codes "1.2.0.3") (branch (1 ∷ 2 ∷ 3 ∷ [])) read_magic
