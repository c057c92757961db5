-- ===== src/Discovery/Revision.antt =====
-- src/discovery.rs, `FileRevisionHandler::handle_revision`.
use git_cvs_fast_import.Prelude.{
  ℕ, List, [], ◌∷◌, Option, none, some, Bytes, codes, Bool, true, false, if◌then◌else◌, Outcome, ok,
  err, panic, ◌>>=◌,
}
use git_cvs_fast_import.Prelude.Equality.{◌=?◌, nat_eq, list_eq}
use git_cvs_fast_import.Prelude.Assoc.{lookup, or_else}
use git_cvs_fast_import.Num
use git_cvs_fast_import.Num.{Num, num_eq}
use git_cvs_fast_import.CommaV.{Delta, DeltaText}
use git_cvs_fast_import.Patchset.{CommitHeap}
use git_cvs_fast_import.Patchset.Heap.{HashOrder}
use git_cvs_fast_import.State.Manager
use git_cvs_fast_import.Observer
use git_cvs_fast_import.Observer.{FileRevision, Observing, receive, message_for}
use git_cvs_fast_import.FastImport
use git_cvs_fast_import.FastImport.{Writer}
use git_cvs_fast_import.FastImport.Blob
use git_cvs_fast_import.Import
use git_cvs_fast_import.Discovery.{Error, FileRevisionHandler, Place, Result}

-- The closure of `branch_iter`, with the names that follow; an error of `contains` is unwrapped.
abbrev pub name_if {κ} :
    {E : Type κ} → Bytes → Outcome Num.Error Bool → Outcome E (List Bytes) → Outcome E (List Bytes)
name_if name (ok true) names = (names >>= λ rest. ok (name ∷ rest))
name_if name (ok false) names = names
name_if name (err _) names = panic
name_if name panic names = panic

-- `branch_iter`: the names of the branches that contain the revision.
unfoldable pub branch_iter {κ} : {E : Type κ} → Num → List (Bytes × Num) → Outcome E (List Bytes)
unfolding Num.contains
branch_iter revision [] = ok []
branch_iter revision ((name, head) ∷ rest) =
    name_if name (Num.contains head revision) (branch_iter revision rest)

abbrev pub is_dead : Option Bytes → Bool
is_dead (some state) = state =? codes "dead"
is_dead none = false

module _ (C : CommitHeap ℕ) where
  abbrev pub with_blob :
      Place C → Outcome FastImport.Error (ℕ × Writer) → Result C (Option ℕ × Place C)
  with_blob p (ok (mark, output)) = ok (some mark, record p { output = output })
  with_blob p (err e) = err (Error.fast_import e, p)
  with_blob p panic = panic

  -- The mark of a revision: a dead one has no blob.
  unfoldable pub send_blob : Bytes → Delta → Place C → Result C (Option ℕ × Place C)
  unfolding Import.blob
  send_blob content delta p =
      if is_dead delta.state
      then ok (none, p)
      else with_blob p (Import.blob (Blob.new content) p.output)

  -- The loop over the tags of the revision.
  unfoldable pub tag_all : List Bytes → ℕ → Observing C → Observing C
  unfolding Observer.tag
  tag_all [] id o = o
  tag_all (tag ∷ tags) id o = tag_all tags id (Observer.tag C tag id o)

  -- The message to the observer, whose detectors have the `limit`, and the tags for the id it returns.
  unfoldable pub observed : ℕ → FileRevision → List Bytes → Observing C → Observing C
  unfolding receive tag_all
  observed limit message tags o = let (id, o') = receive C limit message o in tag_all tags id o'

  module _ (O : HashOrder) (from_utf8_lossy : Bytes → Bytes) (limit : ℕ)
      (h : FileRevisionHandler) where
    -- What is left to do once the blob is sent and the names of the branches are known.
    unfoldable pub record_revision :
        Num → Delta → DeltaText → Option ℕ × Place C → List Bytes → Option ℕ × Place C
    unfolding observed message_for lookup
    record_revision revision delta text (mark, p) names = (
      mark,
      record p {
        observing =
            observed limit (message_for from_utf8_lossy h.real_path revision names mark delta text)
              (or_else (lookup revision h.revision_tags) []) p.observing;
      },
    )

    -- What is done for a revision that is not in the state.
    unfoldable pub add_revision :
        Bytes → Num → Delta → DeltaText → Place C → Result C (Option ℕ × Place C)
    unfolding send_blob branch_iter record_revision
    add_revision content revision delta text p = send_blob content delta p >>= λ sent.
        branch_iter revision (O.order (Bytes × Num) h.branches) >>= λ names.
        ok (record_revision revision delta text sent names)

    -- An error of `get_file_revision` says that the revision has not been seen.
    unfoldable pub handle_revision :
        Bytes → Num → Delta → DeltaText → Place C → Result C (Option ℕ × Place C)
    unfolding add_revision Manager.get_file_revision
    handle_revision content revision delta text p =
        elim (Manager.get_file_revision h.real_path (Num.fmt revision) p.observing.state) [
          | ok seen ↦ ok (seen.mark, p)
          | err _ ↦ add_revision content revision delta text p
          | panic ↦ panic
        ]
