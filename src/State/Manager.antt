-- ===== src/State/Manager.antt =====
-- internal/state/src/lib.rs: the manager. A lock is held for the whole of each operation, so that an
-- operation is a step on the four stores.
use git_cvs_fast_import.Prelude.{
  ℕ, List, [], ◌∷◌, ◌++◌, Option, none, some, Bytes, ltb, if◌then◌else◌, Outcome, ok, err,
}
use git_cvs_fast_import.Paths.{FilePath}
use git_cvs_fast_import.State.{
  FileRevision, PatchSet, Error, no_file_revision_for_id, no_file_revision_for_key,
  no_patch_set_for_mark,
}
use git_cvs_fast_import.State.FileRevisions
use git_cvs_fast_import.State.Patchsets
use git_cvs_fast_import.State.Tags

pub record Manager : Type 0 where
  pub file_revisions : FileRevisions.Store
  pub patchsets : Patchsets.Store
  pub tags : Tags.Store
  pub raw_marks : Bytes

abbrev pub new : Manager
new = record {
  file_revisions = FileRevisions.empty;
  patchsets = Patchsets.empty;
  tags = Tags.empty;
  raw_marks = [];
}

abbrev pub with_file_revisions : FileRevisions.Store → Manager → Manager
with_file_revisions s m = record {
  file_revisions = s;
  patchsets = m.patchsets;
  tags = m.tags;
  raw_marks = m.raw_marks;
}

abbrev pub with_patchsets : Patchsets.Store → Manager → Manager
with_patchsets s m = record {
  file_revisions = m.file_revisions;
  patchsets = s;
  tags = m.tags;
  raw_marks = m.raw_marks;
}

abbrev pub with_tags : Tags.Store → Manager → Manager
with_tags s m = record {
  file_revisions = m.file_revisions;
  patchsets = m.patchsets;
  tags = s;
  raw_marks = m.raw_marks;
}

-- `add_file_revision`, and the id that it returns.
unfoldable pub add_file_revision :
    FilePath → Bytes → Option ℕ → List Bytes → Bytes → Bytes → ℕ → Manager → ℕ × Manager
add_file_revision path revision mark branches author message time m =
    let (id, s) =
      FileRevisions.add
        (record {
          key = record { path = path; revision = revision };
          mark = mark;
          branches = branches;
          author = author;
          message = message;
          time = time;
        })
        m.file_revisions in
    (id, with_file_revisions s m)

unfoldable pub add_patchset : ℕ → Bytes → ℕ → List ℕ → Manager → Manager
add_patchset mark branch time ids m =
    with_patchsets (Patchsets.add mark branch time ids m.patchsets) m

unfoldable pub add_branch_to_patchset_mark : ℕ → Bytes → Manager → Manager
add_branch_to_patchset_mark mark branch m =
    with_patchsets (Patchsets.add_branch_to_patchset mark branch m.patchsets) m

unfoldable pub add_tag : Bytes → ℕ → Manager → Manager
add_tag tag id m = with_tags (Tags.add_tag tag id m.tags) m

unfoldable pub add_tag_mark : Bytes → ℕ → Manager → Manager
add_tag_mark tag mark m = with_tags (Tags.add_mark tag mark m.tags) m

unfoldable pub get_file_revision : FilePath → Bytes → Manager → Outcome Error FileRevision
get_file_revision path revision m = elim (FileRevisions.get_by_key path revision m.file_revisions) [
  | some r ↦ ok r
  | none ↦ err (no_file_revision_for_key (record { path = path; revision = revision }))
]

unfoldable pub get_file_revision_by_id : ℕ → Manager → Outcome Error FileRevision
get_file_revision_by_id id m = elim (FileRevisions.get_by_id id m.file_revisions) [
  | some r ↦ ok r
  | none ↦ err (no_file_revision_for_id id)
]

unfoldable pub get_last_patchset_mark_on_branch : Bytes → Manager → Option ℕ
get_last_patchset_mark_on_branch branch m = Patchsets.get_last_mark_on_branch branch m.patchsets

unfoldable pub get_mark_for_tag : Bytes → Manager → Option ℕ
get_mark_for_tag tag m = Tags.get_mark tag m.tags

unfoldable pub get_mark_from_patchset_content : ℕ → List ℕ → Manager → Option ℕ
get_mark_from_patchset_content time ids m = Patchsets.get_mark_for_content time ids m.patchsets

unfoldable pub get_patchset_from_mark : ℕ → Manager → Outcome Error PatchSet
get_patchset_from_mark mark m = elim (Patchsets.get_by_mark mark m.patchsets) [
  | some p ↦ ok p
  | none ↦ err (no_patch_set_for_mark mark)
]

-- `get_file_revisions_for_tag(tag).iter()`
unfoldable pub get_file_revisions_for_tag : Bytes → Manager → Option (List ℕ)
get_file_revisions_for_tag tag m = Tags.get_file_revisions tag m.tags

-- `get_patchset_ids_for_file_revision(id).iter()`
unfoldable pub get_patchset_ids_for_file_revision : ℕ → Manager → Option (List ℕ)
get_patchset_ids_for_file_revision id m = Patchsets.get_patchset_marks id m.patchsets

-- `get_tags().iter()`
unfoldable pub get_tags : Manager → List Bytes
get_tags m = Tags.get_tags m.tags

-- The closure of the fold in `get_last_patchset_for_file_revision`, with the mark's patchset.
unfoldable pub later : Option (ℕ × PatchSet) → ℕ → Option PatchSet → Option (ℕ × PatchSet)
later (some (mark, prev)) m (some p) =
    if ltb prev.time p.time then some (m, p) else some (mark, prev)
later (some prev) m none = some prev
later none m (some p) = some (m, p)
later none m none = none

unfoldable pub latest_onto :
    Patchsets.Store → Option (ℕ × PatchSet) → List ℕ → Option (ℕ × PatchSet)
unfolding later
latest_onto s prev [] = prev
latest_onto s prev (mark ∷ marks) =
    latest_onto s (later prev mark (Patchsets.get_by_mark mark s)) marks

unfoldable pub get_last_patchset_for_file_revision : ℕ → Manager → Option (ℕ × PatchSet)
unfolding latest_onto
get_last_patchset_for_file_revision id m = elim (Patchsets.get_patchset_marks id m.patchsets) [
  | some marks ↦ latest_onto m.patchsets none marks
  | none ↦ none
]

-- `get_raw_marks` and `set_raw_marks`, of all the bytes that are copied.
unfoldable pub get_raw_marks : Manager → Bytes
get_raw_marks m = m.raw_marks

unfoldable pub set_raw_marks : Bytes → Manager → Manager
set_raw_marks buf m = record {
  file_revisions = m.file_revisions;
  patchsets = m.patchsets;
  tags = m.tags;
  raw_marks = [] ++ buf;
}
