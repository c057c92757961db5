-- ===== src/State/Keyed.antt =====
-- The store of file revisions of internal/state/src/file_revision.rs: its indexes agree with its
-- list, and what is found in it after it grows.
use mathlib.Core.Path.{subst}
use git_cvs_fast_import.Prelude.{
  ℕ, zero, suc, List, [], ◌∷◌, ◌++◌, Option, none, some, Bytes, ◌==◌, ◌≡◌, ◌<◌, ◌≤◌, refl, sym, ap,
  ◌∙◌, ◌⊎◌, arith, length, get_elem?, if◌then◌else◌, Option-cases, Bool-cases, inl, inr, map,
  append-nil, append_assoc,
}
use git_cvs_fast_import.Prelude.Equality.{◌=?◌, =?_refl, nat_eq}
use git_cvs_fast_import.Prelude.Assoc.{lookup, lookup-insert, or_else}
use git_cvs_fast_import.State.{Key, key_eq, key_beq_iff, FileRevision}
use git_cvs_fast_import.State.FileRevisions.{
  Store, empty, index_mark, push, add, get_by_id, get_by_key, V1FileRevision, from_v1_file_revision,
  from_v1_onto, from_v1,
}

-- The store has a revision `r` at the id with `P r`.
abbrev pub Has : Store → ℕ → (FileRevision → Type 0) → Type 0
Has s id P = (r : FileRevision) × (get_elem? s.file_revisions id ≡ some r) × P r

-- The index by key has exactly the keys of the revisions, each with the revision's id; the index by
-- mark has exactly the marks of the revisions, each with the id of the last revision with this mark.
pub record IsValid (s : Store) : Type 0 where
  pub by_key_sound : (k : Key) (id : ℕ) → lookup k s.by_key ≡ some id → Has s id (λ r. r.key ≡ k)
  pub by_key_full :
      (id : ℕ) (r : FileRevision)
      → get_elem? s.file_revisions id ≡ some r
      → lookup r.key s.by_key ≡ some id
  pub by_mark_sound : (m id : ℕ) → lookup m s.by_mark ≡ some id → Has s id (λ r. r.mark ≡ some m)
  pub by_mark_full :
      (id m : ℕ) (r : FileRevision)
      → get_elem? s.file_revisions id ≡ some r
      → r.mark ≡ some m
      → (last : ℕ) × (lookup m s.by_mark ≡ some last) × (id ≤ last)

get_elem?-snoc {ℓ} :
    {A : Type ℓ} (xs : List A) (x : A) (i : ℕ)
    → get_elem? (xs ++ x ∷ []) i ≡ (if i == length xs then some x else get_elem? xs i)
get_elem?-snoc [] x zero = refl
get_elem?-snoc [] x (suc i) = ground arith
get_elem?-snoc (y ∷ xs) x zero = ground arith
get_elem?-snoc (y ∷ xs) x (suc i) = ground (arith, get_elem?-snoc xs x i)

get_elem?-bound {ℓ} :
    {A : Type ℓ} (xs : List A) (i : ℕ) {x : A} → get_elem? xs i ≡ some x → i < length xs
get_elem?-bound [] i h = absurd cc
get_elem?-bound (y ∷ xs) zero h = omega arith
get_elem?-bound (y ∷ xs) (suc i) h = omega (arith, get_elem?-bound xs i h)

-- A revision of the store is still there after a push.
Has-push :
    (r : FileRevision) (s : Store) (id : ℕ) {x : FileRevision}
    → get_elem? s.file_revisions id ≡ some x
    → get_elem? (push r s).file_revisions id ≡ some x
unfolding push
Has-push r s id h =
    ground (arith, get_elem?-snoc s.file_revisions r id, get_elem?-bound s.file_revisions id h, h)

push_last :
    (r : FileRevision) (s : Store)
    → get_elem? (push r s).file_revisions (length s.file_revisions) ≡ some r
unfolding push
push_last r s = ground (arith, get_elem?-snoc s.file_revisions r (length s.file_revisions))

lookup-index_mark :
    (mark : Option ℕ) (id m n : ℕ) (s : Store)
    → lookup m (index_mark mark id s.by_mark) ≡ some n
    → ((mark ≡ some m) × (n ≡ id)) ⊎ (lookup m s.by_mark ≡ some n)
lookup-index_mark none id m n s h = inr h
lookup-index_mark (some mark) id m n s h = ground (arith, lookup-insert mark m id s.by_mark, h)

-- Where a mark leads after a push of a revision: to the new one if it has the mark.
lookup-index_mark_eq :
    (mark : Option ℕ) (id m : ℕ) (s : Store)
    → mark ≡ some m
    → lookup m (index_mark mark id s.by_mark) ≡ some id
lookup-index_mark_eq none id m s h = absurd cc
lookup-index_mark_eq (some mark) id m s h = ground (arith, lookup-insert mark m id s.by_mark, h)

lookup-index_mark_cases :
    (mark : Option ℕ) (id m : ℕ) (s : Store)
    → (lookup m (index_mark mark id s.by_mark) ≡ some id)
      ⊎ (lookup m (index_mark mark id s.by_mark) ≡ lookup m s.by_mark)
lookup-index_mark_cases none id m s = inr refl
lookup-index_mark_cases (some mark) id m s = ground (arith, lookup-insert mark m id s.by_mark)

lookup_push :
    (k : Key) (r : FileRevision) (s : Store)
    → lookup k (push r s).by_key
      ≡ (if r.key =? k then some (length s.file_revisions) else lookup k s.by_key)
unfolding push
lookup_push k r s = lookup-insert r.key k (length s.file_revisions) s.by_key

push-by_key_sound :
    (r : FileRevision) (s : Store)
    → IsValid s
    → (k : Key) (id : ℕ) → lookup k (push r s).by_key ≡ some id
    → Has (push r s) id (λ x. x.key ≡ k)
push-by_key_sound r s v k id h = elim (Bool-cases (r.key =? k)) [
  | inl e ↦
      let here : length s.file_revisions ≡ id = ground (arith, lookup_push k r s, h, e) in
      subst (λ i. Has (push r s) i (λ x. x.key ≡ k)) here
        (r, push_last r s, (key_beq_iff r.key k).0 e)
  | inr e ↦
      let before : lookup k s.by_key ≡ some id = ground (arith, lookup_push k r s, h, e) in
      let (x, found, same) = v.by_key_sound k id before in (x, Has-push r s id found, same)
]

-- A revision after a push is the new one, at the end, or an old one.
push-cases :
    (r : FileRevision) (s : Store) (id : ℕ) (x : FileRevision)
    → get_elem? (push r s).file_revisions id ≡ some x
    → ((id ≡ length s.file_revisions) × (r ≡ x)) ⊎ (get_elem? s.file_revisions id ≡ some x)
unfolding push
push-cases r s id x h = ground (arith, get_elem?-snoc s.file_revisions r id, h)

push-by_key_full :
    (r : FileRevision) (s : Store)
    → lookup r.key s.by_key ≡ none
    → IsValid s
    → (id : ℕ) (x : FileRevision) → get_elem? (push r s).file_revisions id ≡ some x
    → lookup x.key (push r s).by_key ≡ some id
push-by_key_full r s fresh v id x h = elim (push-cases r s id x h) [
  | inl (last, same) ↦
      lookup_push x.key r s ∙ rw (ap (λ y. y.key) same, =?_refl x.key) (ap some (sym last))
  | inr old ↦
      let full = v.by_key_full id x old in
      (elim (Bool-cases (r.key =? x.key)) [
        | inl e ↦
            let same = (key_beq_iff r.key x.key).0 e in
            absurd (
              let gone : lookup x.key s.by_key ≡ none =
                subst (λ k. lookup k s.by_key ≡ none) same fresh in
              cc)
        | inr e ↦ lookup_push x.key r s ∙ rw e full
      ])
]

push-by_mark_sound :
    (r : FileRevision) (s : Store)
    → IsValid s
    → (m id : ℕ) → lookup m (push r s).by_mark ≡ some id
    → Has (push r s) id (λ x. x.mark ≡ some m)
push-by_mark_sound r s v m id h =
    elim (lookup-index_mark r.mark (length s.file_revisions) m id s (unfold push in h)) [
      | inl (mark, last) ↦
          subst (λ i. Has (push r s) i (λ x. x.mark ≡ some m)) (sym last) (r, push_last r s, mark)
      | inr old ↦
          let (x, found, same) = v.by_mark_sound m id old in (x, Has-push r s id found, same)
    ]

push-by_mark_full :
    (r : FileRevision) (s : Store)
    → IsValid s
    → (id m : ℕ) (x : FileRevision) → get_elem? (push r s).file_revisions id ≡ some x
    → x.mark ≡ some m
    → (last : ℕ) × (lookup m (push r s).by_mark ≡ some last) × (id ≤ last)
unfolding push
push-by_mark_full r s v id m x h marked = elim (push-cases r s id x h) [
  | inl (end, same) ↦ (
    length s.file_revisions,
    lookup-index_mark_eq r.mark (length s.file_revisions) m s (ap (λ y. y.mark) same ∙ marked),
    omega arith,
  )
  | inr old ↦
      let (last, found, le) = v.by_mark_full id m x old marked in
      let below = get_elem?-bound s.file_revisions id old in
      (elim (lookup-index_mark_cases r.mark (length s.file_revisions) m s) [
        | inl new ↦ (length s.file_revisions, new, omega arith)
        | inr kept ↦ (last, kept ∙ found, le)
      ])
]

pub push-IsValid :
    (r : FileRevision) (s : Store) → lookup r.key s.by_key ≡ none → IsValid s → IsValid (push r s)
push-IsValid r s fresh v = record {
  by_key_sound = push-by_key_sound r s v;
  by_key_full = push-by_key_full r s fresh v;
  by_mark_sound = push-by_mark_sound r s v;
  by_mark_full = push-by_mark_full r s v;
}

pub empty-IsValid : IsValid empty
unfolding lookup
empty-IsValid = record {
  by_key_sound = λ k id h. absurd cc;
  by_key_full = λ id r h. absurd cc;
  by_mark_sound = λ m id h. absurd cc;
  by_mark_full = λ id m r h marked. absurd cc;
}

add-seen :
    (q : FileRevision) (s : Store) (id : ℕ) → lookup q.key s.by_key ≡ some id → add q s ≡ (id, s)
unfolding add
add-seen q s id h = rw (h, add) refl

add-fresh :
    (q : FileRevision) (s : Store)
    → lookup q.key s.by_key ≡ none
    → add q s ≡ (length s.file_revisions, push q s)
unfolding add
add-fresh q s h = rw (h, add) refl

-- `add` keeps the agreement of the store's list with its indexes: the index by key has exactly the keys
-- of the revisions, each with the revision's id, and the index by mark exactly their marks, each with the
-- id of the last revision with this mark.
pub add-IsValid : (r : FileRevision) (s : Store) → IsValid s → IsValid (add r s).1
add-IsValid r s v = elim (Option-cases (lookup r.key s.by_key)) [
  | inl fresh ↦ rw (add-fresh r s fresh) (push-IsValid r s fresh v)
  | inr (id, seen) ↦ rw (add-seen r s id seen) v
]

pub get_by_key-key :
    (k : Key) (s : Store) (id : ℕ)
    → lookup k s.by_key ≡ some id
    → get_by_key k.path k.revision s ≡ get_elem? s.file_revisions id
unfolding get_by_key
get_by_key-key k s id h = rw (h, get_by_key) refl

pub get_by_key-missing :
    (k : Key) (s : Store) → lookup k s.by_key ≡ none → get_by_key k.path k.revision s ≡ none
unfolding get_by_key
get_by_key-missing k s h = rw (h, get_by_key) refl

get_by_key-push :
    (r : FileRevision) (s : Store)
    → IsValid s
    → (k : Key)
    → get_by_key k.path k.revision (push r s)
      ≡ (if r.key =? k then some r else get_by_key k.path k.revision s)
get_by_key-push r s v k = elim (Bool-cases (r.key =? k)) [
  | inl e ↦
      let index : lookup k (push r s).by_key ≡ some (length s.file_revisions) =
        lookup_push k r s ∙ rw e refl in
      rw e (get_by_key-key k (push r s) (length s.file_revisions) index ∙ push_last r s)
  | inr e ↦
      let index : lookup k (push r s).by_key ≡ lookup k s.by_key = lookup_push k r s ∙ rw e refl in
      rw e (elim (Option-cases (lookup k s.by_key)) [
        | inl gone ↦
            get_by_key-missing k (push r s) (index ∙ gone) ∙ sym (get_by_key-missing k s gone)
        | inr (id, seen) ↦
            let (x, found, same) = v.by_key_sound k id seen in
            get_by_key-key k (push r s) id (index ∙ seen)
            ∙ Has-push r s id found
            ∙ sym (get_by_key-key k s id seen ∙ found)
      ])
]

-- After `add` of a revision `r` to a store whose indexes agree with its list, a lookup of the key of
-- `r` finds the revision that was there before under this key, or else `r`, and a lookup of another
-- key finds what it found before.
pub get_by_key-add :
    (r : FileRevision) (s : Store)
    → IsValid s
    → (k : Key)
    → get_by_key k.path k.revision (add r s).1 ≡ (
        if r.key =? k
        then some (or_else (get_by_key k.path k.revision s) r)
        else get_by_key k.path k.revision s)
get_by_key-add r s v k = elim (Option-cases (lookup r.key s.by_key)) [
  | inl fresh ↦ rw (add-fresh r s fresh) (
      get_by_key-push r s v k ∙ (elim (Bool-cases (r.key =? k)) [
        | inl e ↦
            let none_before : get_by_key k.path k.revision s ≡ none =
              get_by_key-missing k s
                (subst (λ j. lookup j s.by_key ≡ none) ((key_beq_iff r.key k).0 e) fresh) in
            rw (e, none_before) refl
        | inr e ↦ rw e refl
      ]))
  | inr (id, seen) ↦ rw (add-seen r s id seen) (elim (Bool-cases (r.key =? k)) [
    | inl e ↦
        let index = subst (λ j. lookup j s.by_key ≡ some id) ((key_beq_iff r.key k).0 e) seen in
        let (x, found, same) = v.by_key_sound k id index in
        let before : get_by_key k.path k.revision s ≡ some x =
          get_by_key-key k s id index ∙ found in
        rw (e, before) refl
    | inr e ↦ rw e refl
  ])
]

-- After `add`, the key's index is the id that `add` returned.
indexed : (r : FileRevision) (s : Store) → lookup r.key (add r s).1.by_key ≡ some (add r s).0
indexed r s = elim (Option-cases (lookup r.key s.by_key)) [
  | inl fresh ↦ rw (add-fresh r s fresh) (lookup_push r.key r s ∙ rw (=?_refl r.key) refl)
  | inr (id, seen) ↦ rw (add-seen r s id seen) seen
]

Has-add :
    (r : FileRevision) (s : Store) (id : ℕ) (x : FileRevision)
    → get_by_id id s ≡ some x
    → get_by_id id (add r s).1 ≡ some x
unfolding get_by_id
Has-add r s id x h = elim (Option-cases (lookup r.key s.by_key)) [
  | inl fresh ↦ rw (add-fresh r s fresh) (Has-push r s id h)
  | inr (j, seen) ↦ rw (add-seen r s j seen) h
]

pub get_by_id-indexed :
    (r : FileRevision) (s : Store)
    → get_by_id (add r s).0 (add r s).1 ≡ get_by_key r.key.path r.key.revision (add r s).1
unfolding get_by_id
get_by_id-indexed r s = sym (get_by_key-key r.key (add r s).1 (add r s).0 (indexed r s))

-- In a store whose indexes agree with its list, the id that `add` of `r` returns leads to the revision
-- that was there before under the key of `r`, or else to `r`, and so does its key; an `add` of the key
-- again returns the same id and changes nothing; and the ids given before lead where they led.
pub get_by_id-add :
    (r : FileRevision) (s : Store)
    → IsValid s
    → (get_by_id (add r s).0 (add r s).1
        ≡ some (or_else (get_by_key r.key.path r.key.revision s) r))
      × (get_by_key r.key.path r.key.revision (add r s).1
          ≡ some (or_else (get_by_key r.key.path r.key.revision s) r))
      × ((q : FileRevision) → q.key ≡ r.key → add q (add r s).1 ≡ add r s)
      × ((id : ℕ) (x : FileRevision) → get_by_id id s ≡ some x → get_by_id id (add r s).1 ≡ some x)
get_by_id-add r s v =
    let by_key = get_by_key-add r s v r.key ∙ rw (=?_refl r.key) refl in
    (
      get_by_id-indexed r s ∙ by_key,
      by_key,
      λ q same.
          add-seen q (add r s).1 (add r s).0
            (subst (λ k. lookup k (add r s).1.by_key ≡ some (add r s).0) (sym same) (indexed r s)),
      Has-add r s,
    )

-- The keys of the revisions that follow are new to the store and differ from each other.
abbrev pub FreshKeys : (Bytes → Bytes) → Store → List V1FileRevision → Type 0
FreshKeys f s [] = Unit
FreshKeys f s (r ∷ rs) =
    (lookup (from_v1_file_revision f r).key s.by_key ≡ none)
    × FreshKeys f (push (from_v1_file_revision f r) s) rs

from_v1_onto-IsValid :
    (f : Bytes → Bytes) (s : Store) (rs : List V1FileRevision)
    → FreshKeys f s rs
    → IsValid s
    → IsValid (from_v1_onto f s rs)
unfolding from_v1_onto
from_v1_onto-IsValid f s [] fresh v = v
from_v1_onto-IsValid f s (r ∷ rs) (new, fresh) v =
    from_v1_onto-IsValid f (push (from_v1_file_revision f r) s) rs fresh
      (push-IsValid (from_v1_file_revision f r) s new v)

from_v1_onto-file_revisions :
    (f : Bytes → Bytes) (s : Store) (rs : List V1FileRevision)
    → (from_v1_onto f s rs).file_revisions ≡ s.file_revisions ++ map (from_v1_file_revision f) rs
unfolding from_v1_onto push
from_v1_onto-file_revisions f s [] = sym (append-nil s.file_revisions)
from_v1_onto-file_revisions f s (r ∷ rs) =
    from_v1_onto-file_revisions f (push (from_v1_file_revision f r) s) rs
    ∙ append_assoc s.file_revisions (from_v1_file_revision f r ∷ [])
        (map (from_v1_file_revision f) rs)

-- The store made from one of the first format keeps every revision at its id, and its indexes agree
-- with its list if the old revisions have different keys once their revisions are read as UTF-8.
pub from_v1-IsValid :
    (f : Bytes → Bytes) (rs : List V1FileRevision)
    → FreshKeys f empty rs
    → ((from_v1 f rs).file_revisions ≡ map (from_v1_file_revision f) rs) × IsValid (from_v1 f rs)
unfolding from_v1
from_v1-IsValid f rs fresh =
    (from_v1_onto-file_revisions f empty rs, from_v1_onto-IsValid f empty rs fresh empty-IsValid)
