-- ===== src/State/Recorded.antt =====
-- The store of patchsets of internal/state/src/patchset.rs: what is found in it after it grows, and
-- the agreement of its indexes with its patchsets.
use git_cvs_fast_import.Prelude.{
  ℕ, List, [], Option, none, some, Bytes, ◌≡◌, refl, sym, ap, ◌∙◌, if◌then◌else◌, Bool-cases, inl,
  inr, last?, last?-append,
}
use git_cvs_fast_import.Prelude.Equality.{◌=?◌, =?_refl, nat_eq, list_eq}
use git_cvs_fast_import.Prelude.Assoc.{Assoc, lookup, upsert, lookup-insert, lookup-upsert, or_else}
use git_cvs_fast_import.State.{PatchSet, patchset_eq, patchset_beq_iff}
use git_cvs_fast_import.State.IdSet.{mem}
use git_cvs_fast_import.State.Members.{mem-collect, collect-same, SameMembers}
use git_cvs_fast_import.State.Patchsets.{
  Store, build_patchset, push_mark, add, add_branch_to_patchset, get_mark_for_content, get_by_mark,
  get_patchset_marks, get_last_mark_on_branch,
}

build_patchset-same :
    (time : ℕ) (xs ys : List ℕ)
    → SameMembers xs ys
    → build_patchset time xs ≡ build_patchset time ys
unfolding build_patchset
build_patchset-same time xs ys h i = record { time = time; file_revisions = collect-same xs ys h i }

build_patchset-injective :
    (t u : ℕ) (xs ys : List ℕ)
    → build_patchset t xs ≡ build_patchset u ys
    → (t ≡ u) × SameMembers xs ys
unfolding build_patchset
build_patchset-injective t u xs ys e = (
  ap (λ p. p.time) e,
  λ z. sym (mem-collect z xs) ∙ ap (λ p. mem z p.file_revisions) e ∙ mem-collect z ys,
)

pub content_lookup :
    (mark : ℕ) (branch : Bytes) (time : ℕ) (ids : List ℕ) (s : Store) (u : ℕ) (ys : List ℕ)
    → get_mark_for_content u ys (add mark branch time ids s) ≡ (
        if build_patchset time ids =? build_patchset u ys
        then some mark
        else get_mark_for_content u ys s)
unfolding get_mark_for_content add
content_lookup mark branch time ids s u ys =
    lookup-insert (build_patchset time ids) (build_patchset u ys) mark s.by_content

-- After `add`, the content of the added patchset, in any order and with any repeats of its ids, is
-- found under the added mark, and any other content is found as before.
pub get_mark_for_content-add :
    (mark : ℕ) (branch : Bytes) (time : ℕ) (ids : List ℕ) (s : Store)
    → ((ys : List ℕ)
        → SameMembers ids ys
        → get_mark_for_content time ys (add mark branch time ids s) ≡ some mark)
      × ((u : ℕ) (ys : List ℕ)
          → ¬ ((time ≡ u) × SameMembers ids ys)
          → get_mark_for_content u ys (add mark branch time ids s) ≡ get_mark_for_content u ys s)
get_mark_for_content-add mark branch time ids s = (
  (λ ys same.
      content_lookup mark branch time ids s time ys
      ∙ rw (sym (build_patchset-same time ids ys same), =?_refl (build_patchset time ids)) refl),
  (λ u ys differ. elim (Bool-cases (build_patchset time ids =? build_patchset u ys)) [
    | inl e ↦ absurd (
        differ (
          build_patchset-injective time u ids ys
            ((patchset_beq_iff (build_patchset time ids) (build_patchset u ys)).0 e)))
    | inr e ↦ content_lookup mark branch time ids s u ys ∙ rw e refl
  ]),
)

last_mark_upsert :
    (mark : ℕ) (branch other : Bytes) (m : Assoc Bytes (List ℕ)) (before : Option ℕ)
    → (elim (lookup other m) [ none ↦ none | some marks ↦ last? marks ]) ≡ before
    → (elim (lookup other (upsert branch [] (push_mark mark) m)) [
      | none ↦ none
      | some marks ↦ last? marks
    ])
      ≡ (if branch =? other then some mark else before)
last_mark_upsert mark branch other m before e =
    rw (lookup-upsert branch other [] (push_mark mark) m) (elim (Bool-cases (branch =? other)) [
      | inl same ↦ rw same (last?-append (or_else (lookup other m) []) mark)
      | inr differ ↦ rw differ e
    ])

-- After `add`, and after `add_branch_to_patchset`, the last mark on the branch is the mark that was
-- given, and the last mark on any other branch is what it was.
pub get_last_mark_on_branch-add :
    (mark : ℕ) (branch other : Bytes) (time : ℕ) (ids : List ℕ) (s : Store)
    → (get_last_mark_on_branch other (add mark branch time ids s)
        ≡ (if branch =? other then some mark else get_last_mark_on_branch other s))
      × (get_last_mark_on_branch other (add_branch_to_patchset mark branch s)
          ≡ (if branch =? other then some mark else get_last_mark_on_branch other s))
unfolding add add_branch_to_patchset get_last_mark_on_branch
get_last_mark_on_branch-add mark branch other time ids s =
    let both =
      last_mark_upsert mark branch other s.by_branch (get_last_mark_on_branch other s) refl in
    (both, both)

-- The marks recorded for a file revision, and the ids of the patchset under a mark.
abbrev pub marks_of : ℕ → Store → List ℕ
marks_of id s = or_else (get_patchset_marks id s) []

abbrev pub ids_of : Option PatchSet → List ℕ
ids_of none = []
ids_of (some p) = p.file_revisions

-- A content's mark leads to the content, and a mark is recorded for a file revision exactly if the
-- patchset under the mark has the file revision.
pub record IsValid (s : Store) : Type 0 where
  pub content_sound :
      (p : PatchSet) (mark : ℕ) → lookup p s.by_content ≡ some mark → get_by_mark mark s ≡ some p
  pub marks_exact : (mark id : ℕ) → mem mark (marks_of id s) ≡ mem id (ids_of (get_by_mark mark s))
