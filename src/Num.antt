-- ===== src/Num.antt =====
-- comma-v/src/num.rs: revision numbers. `usize` arithmetic panics when it leaves its range, as in a
-- build with overflow checks; the argument of `from_str` is the bytes of the text.
pub mod Contains
pub mod Text
pub mod Tests
use git_cvs_fast_import.Prelude.{
  ℕ, zero, suc, ◌+◌, ◌-◌, ◌/◌, ◌%◌, List, [], ◌∷◌, ◌++◌, Option, none, some, Bytes, Bool, true,
  false, ◌&&◌, not, ◌==◌, ltb, leb, if◌then◌else◌, length, get_elem?, take, Outcome, ok, err, panic,
  ◌>>=◌, ◌≡◌, ◌↔◌, arith,
}
use git_cvs_fast_import.Prelude.Equality.{Eq, ◌=?◌, nat_eq, list_eq, list_beq_iff}
use git_cvs_fast_import.Decimal.{parse_u64, to_string}

pub data Num : Type 0 where
  branch : List ℕ → Num
  commit : List ℕ → Num

-- `PartialEq` and `Hash`, which `Num` derives
abbrev pub num_beq : Num → Num → Bool
num_beq (branch a) (branch b) = a =? b
num_beq (commit a) (commit b) = a =? b
num_beq _ _ = false

pub num_beq_iff : (a b : Num) → (num_beq a b ≡ true) ↔ (a ≡ b)
num_beq_iff (branch a) (branch b) = ground (arith, list_beq_iff a b)
num_beq_iff (commit a) (commit b) = ground (arith, list_beq_iff a b)
num_beq_iff (branch a) (commit b) = ground arith
num_beq_iff (commit a) (branch b) = ground arith

instance abbrev pub num_eq : Eq Num
num_eq = record { beq = num_beq; beq_iff = num_beq_iff }

-- The errors of `Num` in comma-v/src/error.rs.
pub data Error : Type 0 where
  invalid_types_for_contains parse_int parse_utf8 : Error

-- One round of the loop over the intermediate branches, at the index `i`: what the function returns,
-- or `none` if the loop goes on. An index out of bounds is a panic.
unfoldable pub check_at : List ℕ → List ℕ → ℕ → Option (Outcome Error Bool)
check_at b other i = elim (get_elem? other i) [
  | none ↦ some (ok true)
  | some other_branch ↦ (elim (get_elem? b i) [
    | none ↦ some panic
    | some branch_i ↦
        if not (other_branch == branch_i)
        then some (ok false)
        else (elim (get_elem? other (suc i)) [
          | none ↦ some (err invalid_types_for_contains)
          | some rev ↦ (elim (get_elem? b (suc i)) [
            | none ↦ some panic
            | some last_rev ↦ if ltb last_rev rev then some (ok false) else none
          ])
        ])
  ])
]

-- `for i in (0..branch.len() - 1).step_by(2)`, by the rounds that are left.
unfoldable pub check_loop : ℕ → List ℕ → List ℕ → ℕ → Option (Outcome Error Bool)
check_loop zero b other i = none
check_loop (suc rounds) b other i = elim (check_at b other i) [
  | some r ↦ some r
  | none ↦ check_loop rounds b other (suc (suc i))
]

-- The test of the leaf branch, at the index `i` of the branch's last number.
unfoldable pub check_leaf : List ℕ → List ℕ → ℕ → Outcome Error Bool
check_leaf b other i = elim (get_elem? other i) [
  | none ↦ ok true
  | some other_branch ↦ (elim (get_elem? b i) [
    | none ↦ panic
    | some leaf ↦ if not (other_branch == leaf) then ok false else ok true
  ])
]

-- What follows the test of the depth; `branch.len() - 1` panics on an empty branch.
unfoldable pub check_all : List ℕ → List ℕ → Outcome Error Bool
unfolding check_loop check_at check_leaf
check_all b other = elim (length b) [
  | zero ↦ panic
  | suc n ↦ (elim (check_loop (suc n / 2) b other 0) [ some r ↦ r | none ↦ check_leaf b other n ])
]

unfoldable pub contains : Num → Num → Outcome Error Bool
unfolding check_all
contains (branch b) (commit other) =
    if ltb (length b + 1) (length other) then ok false else check_all b other
contains _ _ = err invalid_types_for_contains

-- `parts[0..parts.len() - 1]` panics on a commit with no numbers.
unfoldable pub to_branch : Num → Outcome Error Num
to_branch (branch parts) = ok (branch parts)
to_branch (commit parts) = elim parts [
  | [] ↦ panic
  | p ∷ ps ↦ ok (branch (take (length ps) (p ∷ ps)))
]

abbrev pub dot : ℕ
dot = b'.'

-- `str::split('.')`; the first argument is the part so far.
unfoldable pub split_onto : Bytes → Bytes → List Bytes
split_onto part [] = part ∷ []
split_onto part (c ∷ s) = elim (c == dot) [
  | true ↦ part ∷ split_onto [] s
  | false ↦ split_onto (part ++ c ∷ []) s
]

-- `filter_map` and `collect`: zeros are left out, and the first error ends it.
unfoldable pub parse_parts : List Bytes → Outcome Error (List ℕ)
parse_parts [] = ok []
parse_parts (part ∷ parts) = elim (parse_u64 part) [
  | none ↦ err parse_int
  | some zero ↦ parse_parts parts
  | some (suc v) ↦ parse_parts parts >>= λ vs. ok (suc v ∷ vs)
]

unfoldable pub from_str : Bytes → Outcome Error Num
unfolding split_onto parse_parts
from_str s = do
  parts ← parse_parts (split_onto [] s)
  if length parts % 2 == 0 then ok (commit parts) else ok (branch parts)

-- `fmt_u64_slice`
unfoldable pub fmt_u64_slice : List ℕ → Bytes
fmt_u64_slice [] = []
fmt_u64_slice (p ∷ []) = to_string p
fmt_u64_slice (p ∷ q ∷ ps) = to_string p ++ dot ∷ fmt_u64_slice (q ∷ ps)

-- `Display for Num`
unfoldable pub fmt : Num → Bytes
unfolding fmt_u64_slice
fmt (branch parts) = fmt_u64_slice parts
fmt (commit parts) = fmt_u64_slice parts
