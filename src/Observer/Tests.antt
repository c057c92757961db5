-- ===== src/Observer/Tests.antt =====
-- The observer on concrete inputs.
use mathlib.Core.List.{flat_map}
use git_cvs_fast_import.Prelude.{ℕ, List, [], ◌∷◌, some, Bytes, codes, ok, ◌≡◌, refl, map}
use git_cvs_fast_import.Prelude.Equality.{nat_eq, list_eq}
use git_cvs_fast_import.Prelude.Assoc.{Assoc, lookup, or_else}
use git_cvs_fast_import.Prelude.Multiset.{SameItems, Sorted}
use git_cvs_fast_import.Patchset.{PatchSet, patchset_time}
use git_cvs_fast_import.Patchset.Runs.{commit_entry, entries}
use git_cvs_fast_import.Patchset.Concrete.{commit_heap, patchset_heap, reversed}
use git_cvs_fast_import.State.{Error}
use git_cvs_fast_import.State.FileRevisions
use git_cvs_fast_import.State.Manager
use git_cvs_fast_import.State.Manager.{Manager}
use git_cvs_fast_import.Observer.{FileRevision, join, start, receive}
use git_cvs_fast_import.Observer.Branches.{receive_all, calls_for_all, join-receive_all}

abbrev main_branch : Bytes
main_branch = codes "main"

abbrev stable : Bytes
stable = codes "stable"

abbrev revision_of : Bytes → List Bytes → ℕ → FileRevision
revision_of revision branches time = record {
  path = codes "a" ∷ [];
  revision = revision;
  mark = some 1;
  branches = branches;
  author = codes "ann";
  message = codes "fix";
  time = time;
}

abbrev revisions : List FileRevision
revisions =
    revision_of (codes "1.1") (main_branch ∷ stable ∷ []) 100
    ∷ revision_of (codes "1.2") (main_branch ∷ []) 110
    ∷ []

test_receive_all :
    (receive_all commit_heap 120 revisions (start commit_heap Manager.new)).0 ≡ 0 ∷ 1 ∷ []
unfolding receive_all receive Manager.add_file_revision FileRevisions.add
test_receive_all = refl

join-receive_all_example :
    let (ids, o) = receive_all commit_heap 120 revisions (start commit_heap Manager.new) in
    (result : Assoc Bytes (List (PatchSet ℕ))) × (join commit_heap patchset_heap reversed
        {E = Error} o.detectors
      ≡ ok result)
    × ((branch : Bytes)
        → Sorted patchset_time (or_else (lookup branch result) [])
          × SameItems
              (flat_map entries (or_else (lookup branch result) []))
              (map (λ a. commit_entry a.0 a.1) (calls_for_all branch ids revisions)))
join-receive_all_example =
    join-receive_all commit_heap patchset_heap reversed {E = Error} 120 Manager.new revisions
