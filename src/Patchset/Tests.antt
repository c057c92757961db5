-- ===== src/Patchset/Tests.antt =====
-- Runs of the detector, and the theorems at concrete inputs.
use mathlib.Core.List.{flat_map, flatten}
use git_cvs_fast_import.Paths.{FilePath}
use git_cvs_fast_import.Prelude.{ℕ, List, [], ◌∷◌, ◌++◌, some, codes, ◌≡◌, refl, map, All, ok}
use git_cvs_fast_import.Prelude.Multiset.{SameItems, Sorted}
use git_cvs_fast_import.Prelude.Assoc.{lookup, insert, upsert}
use git_cvs_fast_import.Patchset.Concrete.{
  commit_heap, patchset_heap, reversed, sorted_insert, sorted_list_heap,
}
use git_cvs_fast_import.Patchset.{
  CommitKey, Commit, Files, PatchSet, Detector, new, into_patchset_iter, patchset_time, cut_bucket,
  file_content,
}
use git_cvs_fast_import.Patchset.Runs.{IsLinked, IsSeparated, to_patchset, commit_entry, entries}
use git_cvs_fast_import.Patchset.Loop.{cut_bucket-partition, bucket_patchsets}
use git_cvs_fast_import.Patchset.Detect.{
  add_all, into_patchset_iter-runs, into_patchset_iter-add_all,
}
use git_cvs_fast_import.Patchset.Content.{ids_of, newest, file_content-to_patchset}

abbrev bottle : CommitKey
bottle = record { author = codes "author"; message = codes "message in a bottle" }

abbrev other : CommitKey
other = record { author = codes "author"; message = codes "this is a different message" }

abbrev foo : FilePath
foo = codes "foo" ∷ []

abbrev bar : FilePath
bar = codes "bar" ∷ []

abbrev commit_of : FilePath → ℕ → ℕ → Commit ℕ
commit_of path id time = record { path = path; id = id; time = time }

-- The calls of `test_detector` in patchset/src/lib.rs.
abbrev adds : List (CommitKey × Commit ℕ)
adds =
    (bottle, commit_of foo 1 100)
    ∷ (bottle, commit_of bar 2 101)
    ∷ (bottle, commit_of foo 3 300)
    ∷ (other, commit_of bar 4 90)
    ∷ (bottle, commit_of foo 5 120)
    ∷ []

abbrev patchset_of : CommitKey → ℕ → Files ℕ → PatchSet ℕ
patchset_of key time files = record {
  time = time;
  author = key.author;
  message = key.message;
  files = files;
}

test_detector :
    into_patchset_iter commit_heap patchset_heap reversed
      (add_all commit_heap (new commit_heap 120) adds)
    ≡ some (
        patchset_of other 90 ((bar, 4 ∷ []) ∷ [])
        ∷ patchset_of bottle 120 ((foo, 1 ∷ 5 ∷ []) ∷ (bar, 2 ∷ []) ∷ [])
        ∷ patchset_of bottle 300 ((foo, 3 ∷ []) ∷ [])
        ∷ [])
unfolding into_patchset_iter add_all new sorted_insert lookup insert upsert sorted_list_heap
test_detector = refl

into_patchset_iter-add_all_example :
    (ps : List (PatchSet ℕ)) × (into_patchset_iter commit_heap patchset_heap reversed
        (add_all commit_heap (new commit_heap 120) adds)
      ≡ some ps)
    × Sorted patchset_time ps
    × SameItems (flat_map entries ps) (map (λ a. commit_entry a.0 a.1) adds)
into_patchset_iter-add_all_example =
    into_patchset_iter-add_all commit_heap patchset_heap reversed 120 adds

abbrev detector : Detector commit_heap
detector = add_all commit_heap (new commit_heap 120) adds

into_patchset_iter-runs_example :
    (ps : List (PatchSet ℕ)) × (into_patchset_iter commit_heap patchset_heap reversed detector
      ≡ some ps)
    × Sorted patchset_time ps
    × SameItems ps (
        flat_map
          (bucket_patchsets commit_heap patchset_heap reversed detector.delta)
          detector.file_commits)
into_patchset_iter-runs_example =
    into_patchset_iter-runs commit_heap patchset_heap reversed detector

abbrev bucket : List (Commit ℕ)
bucket = commit_of foo 1 100 ∷ commit_of bar 2 101 ∷ commit_of foo 3 300 ∷ []

cut_bucket-partition_example :
    (h : patchset_heap.Heap) × (rs : List (List (Commit ℕ))) × (cut_bucket patchset_heap 120 bottle
        bucket patchset_heap.new_min
      ≡ some h)
    × SameItems (patchset_heap.into_iter_sorted h) (map (to_patchset bottle) rs ++ [])
    × (flatten rs ≡ bucket)
    × All (IsLinked 120) rs
    × IsSeparated 120 rs
unfolding sorted_list_heap
cut_bucket-partition_example =
    cut_bucket-partition patchset_heap 120 bottle bucket patchset_heap.new_min

file_content-to_patchset_example :
    file_content (to_patchset bottle bucket) foo ≡ newest foo (ids_of foo bucket)
file_content-to_patchset_example = file_content-to_patchset foo bottle bucket

newest-foo : newest foo (ids_of foo bucket) ≡ ok 3
unfolding newest ids_of
newest-foo = refl
