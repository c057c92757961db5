-- ===== src/Import.antt =====
-- The main program of src: what it sends to git, and the state that it records for it. This file has
-- the world that the steps share, the `Output` of internal/process/src/lib.rs with the worker behind
-- it, and the branch filter of src/branch.rs. A message that is sent to the worker is answered, so
-- that each is here a step of the writer.
pub mod Ready
pub mod Patchsets
pub mod Tags
pub mod Tests
use git_cvs_fast_import.Prelude.{
  ℕ, List, [], ◌∷◌, ◌++◌, Option, none, some, Bytes, codes, Bool, true, false, ◌||◌, Outcome, ok,
  err, panic,
}
use git_cvs_fast_import.Prelude.Equality.{Eq, ◌=?◌, nat_eq, list_eq}
use git_cvs_fast_import.State
use git_cvs_fast_import.State.Manager.{Manager}
use git_cvs_fast_import.FastImport
use git_cvs_fast_import.FastImport.{Writer}
use git_cvs_fast_import.FastImport.Blob
use git_cvs_fast_import.FastImport.Commit
use git_cvs_fast_import.FastImport.Tag
use git_cvs_fast_import.FastImport.Identity.{TimeError}

-- The state manager and the writer of the worker.
pub record World : Type 0 where
  pub state : Manager
  pub output : Writer

-- `anyhow::Error`, by its sources.
pub data Error : Type 0 where
  utf8 : Error
  time_error : TimeError → Error
  state_error : State.Error → Error
  fast_import : FastImport.Error → Error

-- `?` into another type of errors
abbrev pub map_err {ℓ κ ι} :
    {E : Type ℓ} {F : Type κ} {A : Type ι} → (E → F) → Outcome E A → Outcome F A
map_err f (ok a) = ok a
map_err f (err e) = err (f e)
map_err f panic = panic

unfoldable pub blob : Blob.Blob → Writer → Outcome FastImport.Error (ℕ × Writer)
unfolding FastImport.command Blob.write
blob b output = FastImport.command (Blob.write b) output

unfoldable pub commit : Commit.Commit → Writer → Outcome FastImport.Error (ℕ × Writer)
unfolding FastImport.command Commit.write
commit c output = FastImport.command (Commit.write c) output

unfoldable pub tag : Tag.Tag → Writer → Outcome FastImport.Error (ℕ × Writer)
unfolding FastImport.command Tag.write
tag t output = FastImport.command (Tag.write t) output

unfoldable pub branch : Bytes → ℕ → Writer → Writer
unfolding FastImport.reset
branch name head_mark output =
    FastImport.reset (codes "refs/heads/" ++ name) (some head_mark) output

unfoldable pub lightweight_tag : Bytes → ℕ → Writer → Writer
unfolding FastImport.reset
lightweight_tag name commit_mark output =
    FastImport.reset (codes "refs/tags/" ++ name) (some commit_mark) output

-- `BranchFilter`; the set of branches is a list.
pub record BranchFilter : Type 0 where
  pub branches : Option (List Bytes)

unfoldable pub new_filter : List Bytes → BranchFilter
new_filter [] = record { branches = none }
new_filter (b ∷ bs) = record { branches = some (b ∷ bs) }

-- `HashSet::contains`
abbrev pub has_branch : Bytes → List Bytes → Bool
has_branch b [] = false
has_branch b (c ∷ cs) = (b =? c) || has_branch b cs

-- `BranchFilter::contains`
unfoldable pub filter_contains : BranchFilter → Bytes → Bool
filter_contains f b = elim f.branches [ none ↦ true | some bs ↦ has_branch b bs ]
