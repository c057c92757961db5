-- ===== src/State/Latest.antt =====
-- The manager's choice of the last patchset of a file revision, in internal/state/src/lib.rs.
use mathlib.Core.Path.{subst}
use git_cvs_fast_import.Prelude.{
  ℕ, List, [], ◌∷◌, ◌++◌, Option, none, some, true, ◌||◌, ◌==◌, ◌≡◌, ◌≤◌, refl, sym, arith,
  append-nil, append_assoc, Bool-cases, ltb, inl, inr, ◌⊎◌,
}
use git_cvs_fast_import.State.{PatchSet}
use git_cvs_fast_import.State.IdSet.{mem}
use git_cvs_fast_import.State.Patchsets
use git_cvs_fast_import.State.Manager.{
  Manager, later, latest_onto, get_last_patchset_for_file_revision,
  get_patchset_ids_for_file_revision,
}

-- What the choice among `marks` is: nothing if no mark has a patchset, or else a mark with its
-- patchset, of which no other mark's patchset is later.
abbrev pub IsLatest : Patchsets.Store → List ℕ → Option (ℕ × PatchSet) → Type 0
IsLatest s marks none = (m : ℕ) → mem m marks ≡ true → Patchsets.get_by_mark m s ≡ none
IsLatest s marks (some (m, p)) =
    (mem m marks ≡ true)
    × (Patchsets.get_by_mark m s ≡ some p)
    × ((n : ℕ) (q : PatchSet)
        → mem n marks ≡ true
        → Patchsets.get_by_mark n s ≡ some q
        → q.time ≤ p.time)

mem_snoc : (z : ℕ) (xs : List ℕ) (y : ℕ) → mem z (xs ++ y ∷ []) ≡ (mem z xs || (z == y))
mem_snoc z [] y = ground arith
mem_snoc z (x ∷ xs) y = ground (arith, mem_snoc z xs y)

mem_snoc-cases :
    (z : ℕ) (xs : List ℕ) (y : ℕ) → mem z (xs ++ y ∷ []) ≡ true → (mem z xs ≡ true) ⊎ (z ≡ y)
mem_snoc-cases z xs y h = ground (arith, mem_snoc z xs y, h)

mem_snoc-last : (xs : List ℕ) (y : ℕ) → mem y (xs ++ y ∷ []) ≡ true
mem_snoc-last xs y = ground (arith, mem_snoc y xs y)

mem_snoc-keep : (z : ℕ) (xs : List ℕ) (y : ℕ) → mem z xs ≡ true → mem z (xs ++ y ∷ []) ≡ true
mem_snoc-keep z xs y h = ground (arith, mem_snoc z xs y)

-- Patchsets under the same mark are the same.
stored_le :
    (s : Patchsets.Store) (n m : ℕ) (q p : PatchSet)
    → n ≡ m
    → Patchsets.get_by_mark n s ≡ some q
    → Patchsets.get_by_mark m s ≡ some p
    → q.time ≤ p.time
stored_le s n m q p same is stored =
    let equal : q ≡ p = cc in subst (λ x. x.time ≤ p.time) (sym equal) (omega arith)

later-IsLatest :
    (s : Patchsets.Store) (seen : List ℕ) (prev : Option (ℕ × PatchSet)) (mark : ℕ)
    (found : Option PatchSet)
    → Patchsets.get_by_mark mark s ≡ found
    → IsLatest s seen prev
    → IsLatest s (seen ++ mark ∷ []) (later prev mark found)
unfolding later
later-IsLatest s seen none mark none e h = λ m here. elim (mem_snoc-cases m seen mark here) [
  | inl old ↦ h m old
  | inr new ↦ let gone : Patchsets.get_by_mark m s ≡ none = cc in gone
]
later-IsLatest s seen none mark (some p) e h = (
  mem_snoc-last seen mark,
  e,
  λ n q here stored. elim (mem_snoc-cases n seen mark here) [
    | inl old ↦ absurd (let gone = h n old in cc)
    | inr new ↦ stored_le s n mark q p new stored e
  ],
)
later-IsLatest s seen (some (m, prev)) mark none e (inside, stored, top) = (
  mem_snoc-keep m seen mark inside,
  stored,
  λ n q here is. elim (mem_snoc-cases n seen mark here) [
    | inl old ↦ top n q old is
    | inr new ↦ absurd (let gone : Patchsets.get_by_mark n s ≡ none = cc in cc)
  ],
)
later-IsLatest s seen (some (m, prev)) mark (some p) e (inside, stored, top) =
    elim (Bool-cases (ltb prev.time p.time)) [
      | inl newer ↦ rw newer (
        mem_snoc-last seen mark,
        e,
        λ n q here is. elim (mem_snoc-cases n seen mark here) [
          | inl old ↦ let bound = top n q old is in ground arith
          | inr new ↦ stored_le s n mark q p new is e
        ],
      )
      | inr older ↦ rw older (
        mem_snoc-keep m seen mark inside,
        stored,
        λ n q here is. elim (mem_snoc-cases n seen mark here) [
          | inl old ↦ top n q old is
          | inr new ↦ let bound = stored_le s n mark q p new is e in ground arith
        ],
      )
    ]

latest_onto-IsLatest :
    (s : Patchsets.Store) (seen : List ℕ) (prev : Option (ℕ × PatchSet)) (marks : List ℕ)
    → IsLatest s seen prev
    → IsLatest s (seen ++ marks) (latest_onto s prev marks)
unfolding latest_onto
latest_onto-IsLatest s seen prev [] h = subst (λ l. IsLatest s l prev) (sym (append-nil seen)) h
latest_onto-IsLatest s seen prev (mark ∷ marks) h =
    subst (λ l. IsLatest s l (latest_onto s prev (mark ∷ marks)))
      (append_assoc seen (mark ∷ []) marks)
      (latest_onto-IsLatest s (seen ++ mark ∷ []) (later prev mark (Patchsets.get_by_mark mark s))
        marks (later-IsLatest s seen prev mark (Patchsets.get_by_mark mark s) refl h))

-- The marks that the manager lists for a file revision.
abbrev pub listed : ℕ → Manager → List ℕ
listed id m = elim (get_patchset_ids_for_file_revision id m) [ none ↦ [] | some marks ↦ marks ]

among :
    (s : Patchsets.Store) (found : Option (List ℕ))
    → IsLatest s
        (elim found [ none ↦ [] | some marks ↦ marks ])
        (elim found [ some marks ↦ latest_onto s none marks | none ↦ none ])
among s none = λ n here. absurd cc
among s (some marks) = latest_onto-IsLatest s [] none marks (λ n here. absurd cc)

-- `get_last_patchset_for_file_revision` gives a mark from the file revision's list with its patchset,
-- no later patchset being under a mark of the list, and gives nothing only if no mark of the list has
-- a patchset.
pub get_last_patchset_for_file_revision-IsLatest :
    (id : ℕ) (m : Manager)
    → IsLatest m.patchsets (listed id m) (get_last_patchset_for_file_revision id m)
unfolding get_last_patchset_for_file_revision get_patchset_ids_for_file_revision
get_last_patchset_for_file_revision-IsLatest id m =
    among m.patchsets (Patchsets.get_patchset_marks id m.patchsets)
