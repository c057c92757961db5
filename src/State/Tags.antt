-- ===== src/State/Tags.antt =====
-- internal/state/src/tag.rs: the store of tags, and its making from the store of the first format
-- (v1/tag.rs).
use git_cvs_fast_import.Prelude.{
  ℕ, List, [], ◌∷◌, Option, Bytes, ◌≡◌, refl, Bool, ◌&&◌, ◌||◌, ◌==◌, Bool-cases, inl, inr,
}
use git_cvs_fast_import.Prelude.Equality.{◌=?◌, nat_eq, list_eq}
use git_cvs_fast_import.Prelude.Assoc.{Assoc, lookup, insert, upsert, or_else, lookup-upsert}
use git_cvs_fast_import.State.IdSet.{set_insert, collect, mem}
use git_cvs_fast_import.State.Members.{mem-set_insert}

pub record Store : Type 0 where
  pub marks : Assoc Bytes ℕ
  pub tags : Assoc Bytes (List ℕ)

-- `Store::default`
abbrev pub empty : Store
empty = record { marks = []; tags = [] }

unfoldable pub add_mark : Bytes → ℕ → Store → Store
unfolding insert
add_mark tag mark s = record { marks = insert tag mark s.marks; tags = s.tags }

unfoldable pub add_tag : Bytes → ℕ → Store → Store
unfolding upsert set_insert
add_tag tag id s = record { marks = s.marks; tags = upsert tag [] (set_insert id) s.tags }

unfoldable pub get_file_revisions : Bytes → Store → Option (List ℕ)
unfolding lookup
get_file_revisions tag s = lookup tag s.tags

unfoldable pub get_mark : Bytes → Store → Option ℕ
unfolding lookup
get_mark tag s = lookup tag s.marks

unfoldable pub get_tags : Store → List Bytes
get_tags s = keys s.tags
  where
    keys : Assoc Bytes (List ℕ) → List Bytes
    keys [] = []
    keys ((tag, ids) ∷ m) = tag ∷ keys m

-- `v1.tags.into_iter().map(...)`
unfoldable pub from_v1_tags : Assoc Bytes (List ℕ) → Assoc Bytes (List ℕ)
unfolding collect
from_v1_tags [] = []
from_v1_tags ((tag, ids) ∷ m) = (tag, collect ids) ∷ from_v1_tags m

unfoldable pub from_v1 : Assoc Bytes (List ℕ) → Store
unfolding from_v1_tags
from_v1 v1_tags = record { marks = []; tags = from_v1_tags v1_tags }

-- The ids that are recorded for a tag, `false` everywhere for an unknown tag.
abbrev pub has_id : Bytes → ℕ → Store → Bool
has_id tag z s = mem z (or_else (get_file_revisions tag s) [])

-- After `add_tag`, a file revision is in a tag exactly if it is the one that was added to that very
-- tag, or was in that tag before.
pub has_id-add_tag :
    (tag : Bytes) (id : ℕ) (s : Store) (tag' : Bytes) (z : ℕ)
    → has_id tag' z (add_tag tag id s) ≡ (((tag =? tag') && (z == id)) || has_id tag' z s)
unfolding add_tag get_file_revisions
has_id-add_tag tag id s tag' z =
    rw (lookup-upsert tag tag' [] (set_insert id) s.tags) (elim (Bool-cases (tag =? tag')) [
      | inl e ↦ rw e (mem-set_insert z id (or_else (lookup tag' s.tags) []))
      | inr e ↦ rw e refl
    ])
