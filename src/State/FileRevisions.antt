-- ===== src/State/FileRevisions.antt =====
-- internal/state/src/file_revision.rs: the store of file revisions, whose ids are positions in
-- `file_revisions`, and its making from the store of the first format (v1/file_revision.rs).
use git_cvs_fast_import.Prelude.{
  ℕ, List, [], ◌∷◌, ◌++◌, Option, none, some, Bytes, length, get_elem?,
}
use git_cvs_fast_import.Prelude.Equality.{nat_eq}
use git_cvs_fast_import.Prelude.Assoc.{Assoc, lookup, insert}
use git_cvs_fast_import.Paths.{FilePath}
use git_cvs_fast_import.State.{Key, key_eq, FileRevision}

pub record Store : Type 0 where
  pub file_revisions : List FileRevision
  pub by_key : Assoc Key ℕ
  pub by_mark : Assoc ℕ ℕ

-- `Store::default`
abbrev pub empty : Store
empty = record { file_revisions = []; by_key = []; by_mark = [] }

-- `if let Some(mark) = mark { by_mark.insert(mark, id) }`
abbrev pub index_mark : Option ℕ → ℕ → Assoc ℕ ℕ → Assoc ℕ ℕ
index_mark none id by_mark = by_mark
index_mark (some mark) id by_mark = insert mark id by_mark

-- The pushes and inserts that `add` and `from` end with.
unfoldable pub push : FileRevision → Store → Store
unfolding insert
push r s = record {
  file_revisions = s.file_revisions ++ r ∷ [];
  by_key = insert r.key (length s.file_revisions) s.by_key;
  by_mark = index_mark r.mark (length s.file_revisions) s.by_mark;
}

-- `Store::add` with the fields of the revision `r`, and the id that it returns. It returns no error.
unfoldable pub add : FileRevision → Store → ℕ × Store
unfolding lookup push
add r s = elim (lookup r.key s.by_key) [
  | some id ↦ (id, s)
  | none ↦ (length s.file_revisions, push r s)
]

unfoldable pub get_by_id : ℕ → Store → Option FileRevision
get_by_id id s = get_elem? s.file_revisions id

unfoldable pub get_by_key : FilePath → Bytes → Store → Option FileRevision
unfolding lookup get_by_id
get_by_key path revision s = elim (lookup (record { path = path; revision = revision }) s.by_key) [
  | some id ↦ get_by_id id s
  | none ↦ none
]

-- `v1::file_revision::Key` and `FileRevision`; the `OsString` of the key is here as the path that it
-- makes.
pub record V1Key : Type 0 where
  pub path : FilePath
  pub revision : Bytes

pub record V1FileRevision : Type 0 where
  pub key : V1Key
  pub mark : Option ℕ
  pub branches : List Bytes
  pub author : Bytes
  pub message : Bytes
  pub time : ℕ

-- The revision of the new format; `from_utf8_lossy` is of `std`.
unfoldable pub from_v1_file_revision : (Bytes → Bytes) → V1FileRevision → FileRevision
from_v1_file_revision from_utf8_lossy r = record {
  key = record { path = r.key.path; revision = from_utf8_lossy r.key.revision };
  mark = r.mark;
  branches = r.branches;
  author = r.author;
  message = r.message;
  time = r.time;
}

-- The loop of `From<v1::file_revision::Store>`, over the list in the old store.
unfoldable pub from_v1_onto : (Bytes → Bytes) → Store → List V1FileRevision → Store
unfolding push from_v1_file_revision
from_v1_onto from_utf8_lossy s [] = s
from_v1_onto from_utf8_lossy s (r ∷ rs) =
    from_v1_onto from_utf8_lossy (push (from_v1_file_revision from_utf8_lossy r) s) rs

unfoldable pub from_v1 : (Bytes → Bytes) → List V1FileRevision → Store
unfolding from_v1_onto
from_v1 from_utf8_lossy rs = from_v1_onto from_utf8_lossy empty rs
