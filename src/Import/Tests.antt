-- ===== src/Import/Tests.antt =====
-- The steps of the main program on a small state: one file, one tag and one patchset.
use mathlib.Core.Path.{subst}
use git_cvs_fast_import.Prelude.{
  ℕ, List, [], ◌∷◌, Option, none, some, Bytes, codes, true, false, arith, Outcome, ok, ◌≡◌, refl,
  All,
}
use git_cvs_fast_import.Decimal
use git_cvs_fast_import.Time
use git_cvs_fast_import.Prelude.Equality.{nat_eq, list_eq}
use git_cvs_fast_import.Patchset
use git_cvs_fast_import.Patchset.{PatchSet}
use git_cvs_fast_import.Patchset.Heap.{HashOrder}
use git_cvs_fast_import.Paths.{FilePath}
use git_cvs_fast_import.State.FileRevisions as Files
use git_cvs_fast_import.State.Patchsets as Stored
use git_cvs_fast_import.State.Tags as Stored_tags
use git_cvs_fast_import.State.Members.{Ascending}
use git_cvs_fast_import.State.Manager
use git_cvs_fast_import.FastImport.Identity
use git_cvs_fast_import.FastImport.Identity.{Identity}
use git_cvs_fast_import.FastImport.Commit
use git_cvs_fast_import.Import
use git_cvs_fast_import.Import.{World, Error, new_filter, filter_contains}
use git_cvs_fast_import.Import.Patchsets.{file_revision_ids, send_patchsets, set_head}
use git_cvs_fast_import.Import.Patchsets.Heads.{IsKnown, Keeps, send_patchsets-heads}
use git_cvs_fast_import.Import.Patchsets.Total.{IsSendable, send_patchsets_total}
use git_cvs_fast_import.Import.Tags.{process}
use git_cvs_fast_import.Import.Tags.Again.{process-process}
use git_cvs_fast_import.Import.Tags.Total.{process_total}
use git_cvs_fast_import.Import.Ready.{IsFound}

-- `test_branch_filter` of src/branch.rs
test_branch_filter_empty : filter_contains (new_filter []) (codes "foo") ≡ true
unfolding filter_contains new_filter
test_branch_filter_empty = refl

test_branch_filter :
    (filter_contains (new_filter (codes "foo" ∷ codes "bar" ∷ [])) (codes "bar") ≡ true)
    × (filter_contains (new_filter (codes "foo" ∷ codes "bar" ∷ [])) (codes "quux") ≡ false)
unfolding filter_contains new_filter
test_branch_filter = (refl, refl)

abbrev pub in_order : HashOrder
in_order = record { order = λ A l. l; order-SameItems = λ A l f. refl }

abbrev pub ascii : Bytes → Option Bytes
ascii s = some s

abbrev pub same_bytes : Bytes → Bytes
same_bytes s = s

abbrev pub first_component : FilePath → Bytes
first_component [] = []
first_component (c ∷ cs) = c

abbrev tagger : Identity
tagger = record { name = none; email = codes "cvs"; when = 1 }

abbrev pub one_file : World
one_file = record {
  state =
      Manager.add_tag (codes "v1") 0
        (Manager.add_file_revision (codes "a" ∷ []) (codes "1.1") (some 3) (codes "main" ∷ [])
          (codes "ann") (codes "fix") 9 Manager.new).1;
  output = record { written = []; next_mark = 4 };
}

abbrev pub patchset : PatchSet ℕ
patchset = record {
  time = Time.unix_epoch;
  author = codes "ann";
  message = codes "fix";
  files = (codes "a" ∷ [], 0 ∷ []) ∷ [];
}

abbrev pub result_of : Outcome Error World → World
result_of (ok w) = w
result_of _ = one_file

abbrev pub imported : World
imported =
    result_of
      (send_patchsets in_order first_component ascii (codes "main") (patchset ∷ []) one_file)

abbrev tagged : World
tagged = result_of (process same_bytes first_component tagger (codes "v1") one_file)

pub imported-ok :
    send_patchsets in_order first_component ascii (codes "main") (patchset ∷ []) one_file
    ≡ ok imported
unfolding send_patchsets Identity.new Patchset.file_content_iter Manager.get_file_revision_by_id
    Files.get_by_id Manager.add_tag Manager.add_file_revision Files.add
    Manager.get_mark_from_patchset_content Stored.get_mark_for_content Commit.build
    Manager.get_last_patchset_mark_on_branch Stored.get_last_mark_on_branch Import.commit
imported-ok = refl

send_patchsets-heads_example :
    All (λ p. IsKnown p.time (file_revision_ids in_order p) imported.state) (patchset ∷ [])
    × Keeps one_file.state imported.state
    × ((sent : World) × (imported
          ≡ set_head
              (codes "main")
              (Manager.get_last_patchset_mark_on_branch (codes "main") imported.state)
              sent))
send_patchsets-heads_example =
    send_patchsets-heads in_order first_component (codes "main") (codes "main") ascii
      (patchset ∷ []) one_file imported refl imported-ok

-- The stream that the import of the patchset writes.
test_stream :
    imported.output.written
    ≡ codes
        "commit refs/heads/main\nmark :4\ncommitter <ann> 0 +0000\ndata 3\nfix\nM 100644 :3 a\nreset refs/heads/main\nfrom :4\n"
unfolding send_patchsets Identity.new Patchset.file_content_iter Manager.get_file_revision_by_id
    Files.get_by_id Manager.add_tag Manager.add_file_revision Files.add
    Manager.get_mark_from_patchset_content Stored.get_mark_for_content Commit.build
    Manager.get_last_patchset_mark_on_branch Stored.get_last_mark_on_branch Import.commit
    Import.branch Decimal.to_string Identity.fmt
test_stream = refl

tagged-ok : process same_bytes first_component tagger (codes "v1") one_file ≡ ok tagged
unfolding process Manager.get_file_revisions_for_tag Stored_tags.get_file_revisions Manager.add_tag
    Stored_tags.add_tag Manager.add_file_revision Manager.get_mark_for_tag Stored_tags.get_mark
    Manager.get_file_revision_by_id Files.get_by_id Files.add Commit.build
    Manager.get_last_patchset_for_file_revision Stored.get_patchset_marks Import.commit
tagged-ok = refl

one_file-Ascending :
    (ids : List ℕ)
    → Manager.get_file_revisions_for_tag (codes "v1") one_file.state ≡ some ids
    → Ascending ids
unfolding Manager.get_file_revisions_for_tag Manager.add_tag Manager.add_file_revision
    Stored_tags.get_file_revisions Stored_tags.add_tag
one_file-Ascending ids h = let only : 0 ∷ [] ≡ ids = cc in subst Ascending only tt

process-process_example : process same_bytes first_component tagger (codes "v1") tagged ≡ ok tagged
process-process_example =
    process-process same_bytes first_component tagger (codes "v1") one_file tagged
      one_file-Ascending tagged-ok

one_file-IsFound :
    (ids : List ℕ)
    → Manager.get_file_revisions_for_tag (codes "v1") one_file.state ≡ some ids
    → All (IsFound one_file.state) ids
unfolding Manager.get_file_revisions_for_tag Manager.add_tag Manager.add_file_revision
    Stored_tags.get_file_revisions Stored_tags.add_tag Manager.get_file_revision_by_id
    Files.get_by_id Files.add
one_file-IsFound ids h =
    let only : 0 ∷ [] ≡ ids = cc in subst (All (IsFound one_file.state)) only ((_, refl), tt)

one_file-unmarked : Manager.get_mark_for_tag (codes "v1") one_file.state ≡ none
unfolding Manager.get_mark_for_tag Manager.add_tag Manager.add_file_revision Stored_tags.add_tag
    Stored_tags.get_mark
one_file-unmarked = refl

process_total_example :
    (w' : World) × (process same_bytes first_component tagger (codes "v1") one_file ≡ ok w')
process_total_example =
    process_total same_bytes first_component tagger (codes "v1") one_file one_file-IsFound
      (λ mark seen. absurd (let gone = one_file-unmarked in cc)) (omega arith)

patchset-IsSendable :
    All
      (IsSendable in_order first_component (codes "main") (codes "main") one_file.state)
      (patchset ∷ [])
unfolding Patchset.file_content_iter Manager.get_file_revision_by_id Manager.add_tag
    Manager.add_file_revision Files.get_by_id Files.add
patchset-IsSendable = ((omega arith, ((_, refl), tt)), tt)

send_patchsets_total_example :
    (w' : World) × (send_patchsets in_order first_component ascii
        (codes "main")
        (patchset ∷ [])
        one_file
      ≡ ok w')
send_patchsets_total_example =
    send_patchsets_total in_order first_component (codes "main") (codes "main") ascii
      (patchset ∷ []) one_file refl patchset-IsSendable (omega arith)
