-- ===== src/State/Patchsets.antt =====
-- internal/state/src/patchset.rs: the store of patchsets, with its indexes, and its making from the
-- store of the first format (v1/patchset.rs).
use git_cvs_fast_import.Prelude.{ℕ, List, [], ◌∷◌, ◌++◌, Option, none, some, Bytes, last?}
use git_cvs_fast_import.Prelude.Equality.{nat_eq, list_eq}
use git_cvs_fast_import.Prelude.Assoc.{Assoc, lookup, insert, upsert}
use git_cvs_fast_import.State.{PatchSet, patchset_eq}
use git_cvs_fast_import.State.IdSet.{collect}

pub record Store : Type 0 where
  pub patchsets : Assoc ℕ PatchSet
  pub by_file_revision : Assoc ℕ (List ℕ)
  pub by_branch : Assoc Bytes (List ℕ)
  pub by_content : Assoc PatchSet ℕ

-- `Store::default`
abbrev pub empty : Store
empty = record { patchsets = []; by_file_revision = []; by_branch = []; by_content = [] }

unfoldable pub build_patchset : ℕ → List ℕ → PatchSet
unfolding collect
build_patchset time ids = record { time = time; file_revisions = collect ids }

-- `Vec::push`
abbrev pub push_mark : ℕ → List ℕ → List ℕ
push_mark mark marks = marks ++ mark ∷ []

-- The loop of `add` over the patchset's file revisions.
unfoldable pub add_file_revisions : ℕ → List ℕ → Assoc ℕ (List ℕ) → Assoc ℕ (List ℕ)
unfolding upsert
add_file_revisions mark [] by_file_revision = by_file_revision
add_file_revisions mark (id ∷ ids) by_file_revision =
    add_file_revisions mark ids (upsert id [] (push_mark mark) by_file_revision)

-- `Store::add`; `get_mut` and `push`, or `insert` of a new list, is here `upsert`.
unfoldable pub add : ℕ → Bytes → ℕ → List ℕ → Store → Store
unfolding upsert insert build_patchset add_file_revisions
add mark branch time ids s =
    let patchset = build_patchset time ids in
    record {
      patchsets = insert mark patchset s.patchsets;
      by_file_revision = add_file_revisions mark patchset.file_revisions s.by_file_revision;
      by_branch = upsert branch [] (push_mark mark) s.by_branch;
      by_content = insert patchset mark s.by_content;
    }

unfoldable pub add_branch_to_patchset : ℕ → Bytes → Store → Store
unfolding upsert
add_branch_to_patchset mark branch s = record {
  patchsets = s.patchsets;
  by_file_revision = s.by_file_revision;
  by_branch = upsert branch [] (push_mark mark) s.by_branch;
  by_content = s.by_content;
}

unfoldable pub get_mark_for_content : ℕ → List ℕ → Store → Option ℕ
unfolding lookup build_patchset
get_mark_for_content time ids s = lookup (build_patchset time ids) s.by_content

unfoldable pub get_by_mark : ℕ → Store → Option PatchSet
unfolding lookup
get_by_mark mark s = lookup mark s.patchsets

unfoldable pub get_patchset_marks : ℕ → Store → Option (List ℕ)
unfolding lookup
get_patchset_marks id s = lookup id s.by_file_revision

unfoldable pub get_last_mark_on_branch : Bytes → Store → Option ℕ
unfolding lookup
get_last_mark_on_branch branch s = elim (lookup branch s.by_branch) [
  | none ↦ none
  | some marks ↦ last? marks
]

-- `v1::patchset::PatchSet`
pub record V1PatchSet : Type 0 where
  pub branch : Bytes
  pub time : ℕ
  pub file_revisions : List ℕ

-- `v1::patchset::Store`
pub record V1Store : Type 0 where
  pub patchsets : Assoc ℕ V1PatchSet
  pub by_file_revision : Assoc ℕ (List ℕ)
  pub by_branch : Assoc Bytes (List ℕ)

-- The loop of `From<v1::patchset::Store>`, over the entries of the old `BTreeMap` in its order.
unfoldable pub from_v1_onto : Store → Assoc ℕ V1PatchSet → Store
unfolding insert build_patchset
from_v1_onto s [] = s
from_v1_onto s ((mark, p) ∷ ps) =
    let patchset = build_patchset p.time p.file_revisions in
    from_v1_onto
      (record {
        patchsets = insert mark patchset s.patchsets;
        by_file_revision = s.by_file_revision;
        by_branch = s.by_branch;
        by_content = insert patchset mark s.by_content;
      })
      ps

unfoldable pub from_v1 : V1Store → Store
unfolding from_v1_onto
from_v1 v1 =
    from_v1_onto
      (record {
        patchsets = [];
        by_file_revision = v1.by_file_revision;
        by_branch = v1.by_branch;
        by_content = [];
      })
      v1.patchsets
