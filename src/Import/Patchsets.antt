-- ===== src/Import/Patchsets.antt =====
-- `send_patchsets` of src/main.rs. `std::str::from_utf8` is an argument, with `none` for its error; so
-- are the text that `Path::display` prints and the order in which the patchset's map of files is
-- iterated.
pub mod Heads
pub mod Total
use git_cvs_fast_import.Prelude.{
  ℕ, List, [], ◌∷◌, ◌++◌, Option, none, some, Bytes, codes, Outcome, ok, err, ◌>>=◌,
}
use git_cvs_fast_import.Paths.{FilePath}
use git_cvs_fast_import.Patchset
use git_cvs_fast_import.Patchset.{PatchSet, file_content_iter, file_revision_iter}
use git_cvs_fast_import.Patchset.Heap.{HashOrder}
use git_cvs_fast_import.State.{FileRevision}
use git_cvs_fast_import.State.Manager
use git_cvs_fast_import.FastImport.Identity
use git_cvs_fast_import.FastImport.Commit
use git_cvs_fast_import.FastImport.Commit.{
  CommitBuilder, FileCommand, modify, delete, normal, set_committer, set_message, set_from,
  add_file_command,
}
use git_cvs_fast_import.Import
use git_cvs_fast_import.Import.{World, Error, map_err, time_error, state_error, fast_import, utf8}

-- The file command for a revision at a path.
abbrev pub file_command : Bytes → FileRevision → FileCommand
file_command path r = elim r.mark [ some mark ↦ modify normal mark path | none ↦ delete path ]

-- The loop over `file_content_iter`.
unfoldable pub add_file_commands :
    (FilePath → Bytes)
    → Manager.Manager
    → List (FilePath × ℕ)
    → CommitBuilder
    → Outcome Error CommitBuilder
unfolding Commit.apply
add_file_commands display state [] builder = ok builder
add_file_commands display state ((path, file_id) ∷ files) builder = do
  r ← map_err state_error (Manager.get_file_revision_by_id file_id state)
  add_file_commands display state files
      (Commit.apply (add_file_command (file_command (display path) r)) builder)

-- `builder.from(mark)`, if there is a parent.
abbrev pub with_parent : Option ℕ → CommitBuilder → CommitBuilder
with_parent none builder = builder
with_parent (some mark) builder = Commit.apply (set_from mark) builder

-- `flatten` of the ids of the file revisions
unfoldable pub flatten_ids : List (FilePath × List ℕ) → List ℕ
flatten_ids [] = []
flatten_ids ((_, ids) ∷ files) = ids ++ flatten_ids files

-- `file_revision_ids`
unfoldable pub file_revision_ids : HashOrder → PatchSet ℕ → List ℕ
unfolding flatten_ids
file_revision_ids O p = flatten_ids (file_revision_iter O p)

module _ (O : HashOrder) (display : FilePath → Bytes) (branch branch_str : Bytes) where
  -- The builder of the patchset's commit, on the parent `from`.
  pub builder_for : Option ℕ → PatchSet ℕ → Manager.Manager → Outcome Error CommitBuilder
  unfolding add_file_commands
  builder_for from p state = do
    committer ← map_err time_error (Identity.new none p.author p.time)
    add_file_commands display state (file_content_iter O p) (
        with_parent from (
          Commit.apply (set_message p.message) (
            Commit.apply (set_committer committer)
              (Commit.new (codes "refs/heads/" ++ branch_str)))))

  -- The patchset is not known yet: its commit is sent and recorded.
  pub send_new : CommitBuilder → PatchSet ℕ → World → Outcome Error (ℕ × World)
  unfolding file_revision_ids
  send_new builder p w = do
    commit ← map_err fast_import (Commit.build builder)
    (mark, output) ← map_err fast_import (Import.commit commit w.output)
    ok (
      mark,
      record {
        state = Manager.add_patchset mark branch p.time (file_revision_ids O p) w.state;
        output = output;
      },
    )

  -- One round of the loop: the mark that the next patchset has as its parent, and the world.
  pub send_patchset : Option ℕ → PatchSet ℕ → World → Outcome Error (ℕ × World)
  unfolding builder_for send_new
  send_patchset from p w = do
    builder ← builder_for from p w.state
    elim (Manager.get_mark_from_patchset_content p.time (file_revision_ids O p) w.state) [
      | some mark ↦ ok (
        mark,
        record {
          state = Manager.add_branch_to_patchset_mark mark branch w.state;
          output = w.output;
        },
      )
      | none ↦ send_new builder p w
    ]

  -- The loop over the patchsets.
  pub send_loop : Option ℕ → List (PatchSet ℕ) → World → Outcome Error (Option ℕ × World)
  unfolding send_patchset
  send_loop from [] w = ok (from, w)
  send_loop from (p ∷ ps) w = do (mark, w) ← send_patchset from p w; send_loop (some mark) ps w

-- `output.branch(branch_str, head_mark)`, if there is a head.
abbrev pub set_head : Bytes → Option ℕ → World → World
set_head branch_str none w = w
set_head branch_str (some head_mark) w = record {
  state = w.state;
  output = Import.branch branch_str head_mark w.output;
}

unfoldable pub send_patchsets :
    HashOrder
    → (FilePath → Bytes)
    → (Bytes → Option Bytes)
    → Bytes
    → List (PatchSet ℕ)
    → World
    → Outcome Error World
unfolding send_loop
send_patchsets O display from_utf8 branch ps w = elim (from_utf8 branch) [
  | none ↦ err utf8
  | some branch_str ↦ do
    (from, w) ←
        send_loop O display branch branch_str
          (Manager.get_last_patchset_mark_on_branch branch w.state) ps w
    ok (set_head branch_str from w)
]
