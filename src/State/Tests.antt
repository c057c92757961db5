-- ===== src/State/Tests.antt =====
-- The stores of internal/state/src on concrete inputs.
use git_cvs_fast_import.Prelude.{
  ℕ, List, [], ◌∷◌, some, Bytes, codes, ◌≡◌, refl, ◌&&◌, ◌||◌, ◌==◌, map, if◌then◌else◌,
}
use git_cvs_fast_import.Prelude.Equality.{◌=?◌, nat_eq, list_eq}
use git_cvs_fast_import.Prelude.Assoc.{lookup, or_else}
use git_cvs_fast_import.State.{Key, key_eq, FileRevision}
use git_cvs_fast_import.State.Members.{SameMembers}
use git_cvs_fast_import.State.FileRevisions as Files
use git_cvs_fast_import.State.FileRevisions.{V1FileRevision}
use git_cvs_fast_import.State.Keyed.{
  IsValid, empty-IsValid, FreshKeys, add-IsValid, get_by_key-add, get_by_id-add, from_v1-IsValid,
}
use git_cvs_fast_import.State.Patchsets
use git_cvs_fast_import.State.Recorded
use git_cvs_fast_import.State.Tags
use git_cvs_fast_import.State.Manager
use git_cvs_fast_import.State.Latest.{
  IsLatest, listed, get_last_patchset_for_file_revision-IsLatest,
}

abbrev file_key : Key
file_key = record { path = codes "src" ∷ codes "a.c" ∷ []; revision = codes "1.2" }

abbrev revision_of : Key → ℕ → FileRevision
revision_of key time = record {
  key = key;
  mark = some 7;
  branches = codes "main" ∷ [];
  author = codes "ann";
  message = codes "fix";
  time = time;
}

abbrev old : FileRevision
old = revision_of file_key 10

abbrev again : FileRevision
again = revision_of file_key 20

abbrev files : Files.Store
files = (Files.add old Files.empty).1

files-IsValid : IsValid files
files-IsValid = add-IsValid old Files.empty empty-IsValid

-- A second revision under a key is not taken.
test_second_add : (Files.add again files).0 ≡ 0
unfolding Files.add
test_second_add = refl

add-IsValid_example : IsValid (Files.add again files).1
add-IsValid_example = add-IsValid again files files-IsValid

get_by_key-add_example :
    Files.get_by_key file_key.path file_key.revision (Files.add again files).1 ≡ (
      if file_key =? file_key
      then some (or_else (Files.get_by_key file_key.path file_key.revision files) again)
      else Files.get_by_key file_key.path file_key.revision files)
get_by_key-add_example = get_by_key-add again files files-IsValid file_key

get_by_id-add_example :
    (Files.get_by_id (Files.add again files).0 (Files.add again files).1
      ≡ some (or_else (Files.get_by_key file_key.path file_key.revision files) again))
    × (Files.get_by_key file_key.path file_key.revision (Files.add again files).1
        ≡ some (or_else (Files.get_by_key file_key.path file_key.revision files) again))
    × ((q : FileRevision)
        → q.key ≡ file_key
        → Files.add q (Files.add again files).1 ≡ Files.add again files)
    × ((id : ℕ) (x : FileRevision)
        → Files.get_by_id id files ≡ some x
        → Files.get_by_id id (Files.add again files).1 ≡ some x)
get_by_id-add_example = get_by_id-add again files files-IsValid

abbrev v1_revision : Bytes → V1FileRevision
v1_revision revision = record {
  key = record { path = codes "a.c" ∷ []; revision = revision };
  mark = some 3;
  branches = [];
  author = codes "ann";
  message = codes "fix";
  time = 5;
}

abbrev v1_revisions : List V1FileRevision
v1_revisions = v1_revision (codes "1.1") ∷ v1_revision (codes "1.2") ∷ []

-- Both revisions are ASCII, which the reading as UTF-8 keeps.
abbrev same_bytes : Bytes → Bytes
same_bytes s = s

v1_revisions-FreshKeys : FreshKeys same_bytes Files.empty v1_revisions
unfolding Files.push Files.from_v1_file_revision lookup
v1_revisions-FreshKeys = (refl, (refl, tt))

from_v1-IsValid_example :
    ((Files.from_v1 same_bytes v1_revisions).file_revisions
      ≡ map (Files.from_v1_file_revision same_bytes) v1_revisions)
    × IsValid (Files.from_v1 same_bytes v1_revisions)
from_v1-IsValid_example = from_v1-IsValid same_bytes v1_revisions v1_revisions-FreshKeys

abbrev patchsets : Patchsets.Store
patchsets = Patchsets.add 5 (codes "main") 100 (2 ∷ 1 ∷ []) Patchsets.empty

get_mark_for_content-add_example :
    ((ys : List ℕ)
      → SameMembers (2 ∷ 1 ∷ []) ys
      → Patchsets.get_mark_for_content 100 ys patchsets ≡ some 5)
    × ((u : ℕ) (ys : List ℕ)
        → ¬ ((100 ≡ u) × SameMembers (2 ∷ 1 ∷ []) ys)
        → Patchsets.get_mark_for_content u ys patchsets
          ≡ Patchsets.get_mark_for_content u ys Patchsets.empty)
get_mark_for_content-add_example =
    Recorded.get_mark_for_content-add 5 (codes "main") 100 (2 ∷ 1 ∷ []) Patchsets.empty

-- The order of the ids does not matter.
test_content : Patchsets.get_mark_for_content 100 (1 ∷ 2 ∷ 1 ∷ []) patchsets ≡ some 5
unfolding Patchsets.get_mark_for_content Patchsets.add
test_content = refl

get_last_mark_on_branch-add_example :
    (Patchsets.get_last_mark_on_branch
        (codes "dev")
        (Patchsets.add 8 (codes "main") 120 (3 ∷ []) patchsets)
      ≡ (if codes "main" =? codes "dev"
          then some 8
          else Patchsets.get_last_mark_on_branch (codes "dev") patchsets))
    × (Patchsets.get_last_mark_on_branch
          (codes "dev")
          (Patchsets.add_branch_to_patchset 8 (codes "main") patchsets)
        ≡ (if codes "main" =? codes "dev"
            then some 8
            else Patchsets.get_last_mark_on_branch (codes "dev") patchsets))
get_last_mark_on_branch-add_example =
    Recorded.get_last_mark_on_branch-add 8 (codes "main") (codes "dev") 120 (3 ∷ []) patchsets

has_id-add_tag_example :
    Tags.has_id (codes "v1") 4 (Tags.add_tag (codes "v1") 4 Tags.empty)
    ≡ (((codes "v1" =? codes "v1") && (4 == 4)) || Tags.has_id (codes "v1") 4 Tags.empty)
has_id-add_tag_example = Tags.has_id-add_tag (codes "v1") 4 Tags.empty (codes "v1") 4

abbrev manager : Manager.Manager
manager =
    Manager.add_patchset 9 (codes "dev") 300 (1 ∷ [])
      (Manager.add_patchset 5 (codes "main") 100 (2 ∷ 1 ∷ []) Manager.new)

get_last_patchset_for_file_revision-IsLatest_example :
    IsLatest manager.patchsets
      (listed 1 manager)
      (Manager.get_last_patchset_for_file_revision 1 manager)
get_last_patchset_for_file_revision-IsLatest_example =
    get_last_patchset_for_file_revision-IsLatest 1 manager

test_last_patchset :
    Manager.get_last_patchset_for_file_revision 1 manager
    ≡ some (9, record { time = 300; file_revisions = 1 ∷ [] })
unfolding Manager.get_last_patchset_for_file_revision Manager.add_patchset Patchsets.add
    Patchsets.get_patchset_marks Patchsets.get_by_mark
test_last_patchset = refl
