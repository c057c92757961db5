-- ===== src/State.antt =====
-- internal/state/src: the state that is kept between runs. This file has the data that its stores
-- share, from file_revision.rs, patchset.rs and error.rs; the children are the stores and the manager
-- over them. A store's operation takes the store and returns it changed.
pub mod IdSet
pub mod Members
pub mod FileRevisions
pub mod Keyed
pub mod Patchsets
pub mod Recorded
pub mod Tags
pub mod Manager
pub mod Latest
pub mod Tests
use git_cvs_fast_import.Prelude.{ℕ, List, Option, Bytes, Bool, ◌&&◌, ◌≡◌, ◌↔◌, true, arith}
use git_cvs_fast_import.Paths.{FilePath}
use git_cvs_fast_import.Prelude.Equality.{Eq, ◌=?◌, nat_eq, list_eq, list_beq_iff}

pub record Key : Type 0 where
  pub path : FilePath
  pub revision : Bytes

pub record FileRevision : Type 0 where
  pub key : Key
  pub mark : Option ℕ
  pub branches : List Bytes
  pub author : Bytes
  pub message : Bytes
  pub time : ℕ

-- `file_revisions` is a `BTreeSet`: see `IdSet`.
pub record PatchSet : Type 0 where
  pub time : ℕ
  pub file_revisions : List ℕ

-- The errors of error.rs that the manager's lookups make.
pub data Error : Type 0 where
  no_file_revision_for_id : ℕ → Error
  no_file_revision_for_key : Key → Error
  no_patch_set_for_mark : ℕ → Error

abbrev pub key_beq : Key → Key → Bool
key_beq a b = (a.path =? b.path) && (a.revision =? b.revision)

key_ext : (a b : Key) → a.path ≡ b.path → a.revision ≡ b.revision → a ≡ b
key_ext a b p q i = record { path = p i; revision = q i }

pub key_beq_iff : (a b : Key) → (key_beq a b ≡ true) ↔ (a ≡ b)
key_beq_iff a b =
    ground (arith, list_beq_iff a.path b.path, list_beq_iff a.revision b.revision, key_ext a b)

instance abbrev pub key_eq : Eq Key
key_eq = record { beq = key_beq; beq_iff = key_beq_iff }

abbrev pub patchset_beq : PatchSet → PatchSet → Bool
patchset_beq a b = (a.time =? b.time) && (a.file_revisions =? b.file_revisions)

patchset_ext : (a b : PatchSet) → a.time ≡ b.time → a.file_revisions ≡ b.file_revisions → a ≡ b
patchset_ext a b p q i = record { time = p i; file_revisions = q i }

pub patchset_beq_iff : (a b : PatchSet) → (patchset_beq a b ≡ true) ↔ (a ≡ b)
patchset_beq_iff a b =
    ground (arith, list_beq_iff a.file_revisions b.file_revisions, patchset_ext a b)

instance abbrev pub patchset_eq : Eq PatchSet
patchset_eq = record { beq = patchset_beq; beq_iff = patchset_beq_iff }
