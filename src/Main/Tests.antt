-- ===== src/Main/Tests.antt =====
-- src/main.rs on concrete inputs: the branches of a small state, where the walks start, and a whole run
-- over one file.
use git_cvs_fast_import.Prelude.{
  ℕ, List, [], ◌∷◌, none, some, Option, Outcome, err, panic, Bytes, codes, false, ok, ◌≡◌, refl,
  All,
}
use git_cvs_fast_import.Prelude.Equality.{nat_eq, list_eq}
use git_cvs_fast_import.Prelude.Assoc.{Assoc}
use git_cvs_fast_import.Paths.{root, push}
use git_cvs_fast_import.Patchset.{PatchSet}
use git_cvs_fast_import.Import
use git_cvs_fast_import.Import.{BranchFilter, new_filter, filter_contains}
use git_cvs_fast_import.Import.Patchsets.Heads.{Keeps}
use git_cvs_fast_import.Import.Tests.{
  in_order, ascii, same_bytes, first_component, one_file, patchset, imported, imported-ok,
}
use git_cvs_fast_import.Time
use git_cvs_fast_import.Nom.Concrete.{concrete, run_tag, run_digit1}
use git_cvs_fast_import.State.FileRevisions
use git_cvs_fast_import.State.Patchsets
use git_cvs_fast_import.FastImport.Commit
use git_cvs_fast_import.FastImport.Identity
use git_cvs_fast_import.State.Tags
use git_cvs_fast_import.Decimal.{to_string}
use git_cvs_fast_import.Patchset
use git_cvs_fast_import.Nom.Complete.Concrete as Complete
use git_cvs_fast_import.Patchset.Concrete.{commit_heap, patchset_heap, sorted_list_heap}
use git_cvs_fast_import.State.Manager
use git_cvs_fast_import.State.Manager.{Manager}
use git_cvs_fast_import.Main
use git_cvs_fast_import.Discovery.Tests.{rcs_text, since_epoch}
use git_cvs_fast_import.Main.{Opt, Environment, main, start_paths, send_branches}
use git_cvs_fast_import.Main.Sent.{IsSent, send_branches-IsSent}

abbrev filter : BranchFilter
unfolding new_filter
filter = new_filter (codes "main" ∷ [])

abbrev branches : Assoc Bytes (List (PatchSet ℕ))
branches = (codes "other", patchset ∷ []) ∷ (codes "main", patchset ∷ []) ∷ []

sent-ok : send_branches in_order first_component ascii filter branches one_file ≡ ok imported
unfolding send_branches filter_contains filter
sent-ok = rw imported-ok refl

send_branches-IsSent_example :
    All (IsSent in_order first_component ascii filter imported.state) branches
    × Keeps one_file.state imported.state
send_branches-IsSent_example =
    send_branches-IsSent in_order first_component ascii filter branches one_file imported sent-ok

abbrev opt : Opt
opt = record {
  branch = [];
  cvsroot = root ∷ codes "cvs" ∷ [];
  delta = 120;
  head_branch = codes "main";
  ignore_file_errors = false;
  tag_identity_email = codes "cvs";
  tag_identity_name = none;
  directories = (codes "a" ∷ []) ∷ (root ∷ codes "b" ∷ []) ∷ [];
}

-- A directory that is absolute takes the place of the root of the repository.
test_start_paths :
    start_paths opt ≡ (root ∷ codes "cvs" ∷ codes "a" ∷ []) ∷ (root ∷ codes "b" ∷ []) ∷ []
unfolding start_paths push
test_start_paths = refl

abbrev environment : Environment
environment = record {
  system = record {
    read = λ path. some rcs_text;
    is_dir = λ path. some false;
    as_os_str = λ path. codes "/cvs/a,v";
  };
  walk_dir = λ path. some (root ∷ codes "cvs" ∷ codes "a,v" ∷ []) ∷ [];
  now = Time.unix_epoch;
  rev_lines = λ text. some [];
  mark_file = codes "/tmp/m";
  exported_marks = λ stream. some stream;
}

abbrev one : Opt
one = record {
  branch = [];
  cvsroot = root ∷ codes "cvs" ∷ [];
  delta = 120;
  head_branch = codes "main";
  ignore_file_errors = false;
  tag_identity_email = codes "cvs";
  tag_identity_name = none;
  directories = [];
}

-- The stream of a run, which its environment gives back as the marks.
abbrev stream_of : Option (Outcome Main.Error Manager) → Bytes
unfolding Manager.get_raw_marks
stream_of (some (ok state)) = Manager.get_raw_marks state
stream_of (some (err e)) = codes "err"
stream_of (some panic) = codes "panic"
stream_of none = codes "none"

-- From the text of one RCS file and an empty state, the whole stream that git gets.
test_main :
    stream_of (
      main commit_heap patchset_heap in_order concrete Complete.concrete since_epoch first_component
        ascii same_bytes one environment 2 Manager.new)
    ≡ codes
        "feature done\nfeature date-format=raw\nfeature import-marks-if-exists=/tmp/m\nfeature export-marks=/tmp/m\nblob\nmark :1\ndata 2\nhi\ncommit refs/heads/main\nmark :2\ncommitter <ann> 0 +0000\ndata 3\nfix\nM 100644 :1 a\nreset refs/heads/main\nfrom :2\ndone\n"
unfolding main stream_of Complete.concrete run_tag run_digit1 FileRevisions.get_by_key Patchset.new
    sorted_list_heap Patchset.file_content_iter Manager.get_file_revision_by_id
    Manager.add_file_revision FileRevisions.add Manager.get_mark_from_patchset_content
    Patchsets.get_mark_for_content Commit.build Manager.get_last_patchset_mark_on_branch
    Patchsets.get_last_mark_on_branch Import.commit Manager.get_tags Tags.get_tags
    Manager.add_patchset Import.branch to_string Identity.fmt
test_main = refl
