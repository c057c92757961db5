-- ===== src/Observer/Branches.antt =====
-- src/observer.rs, the observer and its collector together: which patchsets the collector has for a
-- branch after any sequence of file revisions.
use mathlib.Core.List.{flat_map}
use git_cvs_fast_import.Prelude.{
  ℕ, List, [], ◌∷◌, ◌++◌, Option, none, some, Bytes, ok, ◌≡◌, refl, sym, ap, ◌∙◌, map,
  if◌then◌else◌, Bool-cases, inl, inr,
}
use git_cvs_fast_import.Prelude.Equality.{◌=?◌, nat_eq, list_eq}
use git_cvs_fast_import.Prelude.Assoc.{Assoc, lookup, upsert, lookup-upsert, or_else}
use git_cvs_fast_import.Prelude.Multiset.{SameItems, Sorted, total}
use git_cvs_fast_import.Patchset
use git_cvs_fast_import.Patchset.{
  CommitHeap, PatchSetHeap, PatchSet, Detector, CommitKey, Commit, add_file_commit,
  into_patchset_iter, patchset_time,
}
use git_cvs_fast_import.Patchset.Heap.{HashOrder}
use git_cvs_fast_import.Patchset.Runs.{commit_entry, entries}
use git_cvs_fast_import.Patchset.Detect.{
  add_all, into_patchset_iter-runs, into_patchset_iter-add_all,
}
use git_cvs_fast_import.State.Manager.{Manager}
use git_cvs_fast_import.Observer.{
  FileRevision, Detectors, Observing, add_to_branches, receive, join, start,
}

-- The call of `add_file_commit` for a revision that has the id.
abbrev commit_of : ℕ → FileRevision → CommitKey × Commit ℕ
commit_of id r = (
  record { author = r.author; message = r.message },
  record { path = r.path; id = id; time = r.time },
)

-- The calls for one branch: one for each place that it has in the list of the revision's branches.
unfoldable pub calls_for : Bytes → ℕ → FileRevision → List Bytes → List (CommitKey × Commit ℕ)
calls_for branch id r [] = []
calls_for branch id r (b ∷ bs) =
    let rest = calls_for branch id r bs in if b =? branch then commit_of id r ∷ rest else rest

unfoldable pub calls_for_all : Bytes → List ℕ → List FileRevision → List (CommitKey × Commit ℕ)
unfolding calls_for
calls_for_all branch (id ∷ ids) (r ∷ rs) =
    calls_for branch id r r.branches ++ calls_for_all branch ids rs
calls_for_all branch _ _ = []

module _ (C : CommitHeap ℕ) (delta : ℕ) where
  -- The worker's rounds for the revisions, and the ids that are sent back.
  unfoldable pub receive_all : List FileRevision → Observing C → List ℕ × Observing C
  unfolding receive
  receive_all [] o = ([], o)
  receive_all (r ∷ rs) o =
      let (id, o') = receive C delta r o in let (ids, o'') = receive_all rs o' in (id ∷ ids, o'')

  -- The detector of a branch, or the one that would be made for it.
  detector_of : Bytes → Detectors C → Detector C
  detector_of branch ds = or_else (lookup branch ds) (Patchset.new C delta)

  add_all-append :
      (d : Detector C) (xs ys : List (CommitKey × Commit ℕ))
      → add_all C d (xs ++ ys) ≡ add_all C (add_all C d xs) ys
  unfolding add_all
  add_all-append d [] ys = refl
  add_all-append d ((k, c) ∷ xs) ys =
      add_all-append (add_file_commit C d c.path c.id k.author k.message c.time) xs ys

  upsert-detector_of :
      (branch b : Bytes) (f : Detector C → Detector C) (ds : Detectors C)
      → detector_of branch (upsert b (Patchset.new C delta) f ds)
        ≡ (if b =? branch then f (detector_of branch ds) else detector_of branch ds)
  unfolding detector_of
  upsert-detector_of branch b f ds =
      ap (λ found. or_else found (Patchset.new C delta))
        (lookup-upsert b branch (Patchset.new C delta) f ds)
      ∙ (elim (Bool-cases (b =? branch)) [ inl e ↦ rw e refl | inr e ↦ rw e refl ])

  -- The detector that `add_file_commit` makes.
  abbrev with_commit : ℕ → FileRevision → Detector C → Detector C
  with_commit id r d = add_file_commit C d r.path id r.author r.message r.time

  add_to_branches-detector_of :
      (branch : Bytes) (id : ℕ) (r : FileRevision) (bs : List Bytes) (ds : Detectors C)
      → detector_of branch (add_to_branches C delta id r bs ds)
        ≡ add_all C (detector_of branch ds) (calls_for branch id r bs)
  unfolding add_to_branches add_all calls_for
  add_to_branches-detector_of branch id r [] ds = refl
  add_to_branches-detector_of branch id r (b ∷ bs) ds =
      let step = upsert-detector_of branch b (with_commit id r) ds in
      let more =
        add_to_branches-detector_of branch id r bs
          (upsert b (Patchset.new C delta) (with_commit id r) ds) in
      elim (Bool-cases (b =? branch)) [
        | inl e ↦ rw e (more ∙ ap (λ d. add_all C d (calls_for branch id r bs)) (step ∙ rw e refl))
        | inr e ↦ rw e (more ∙ ap (λ d. add_all C d (calls_for branch id r bs)) (step ∙ rw e refl))
      ]

  receive-detector_of :
      (branch : Bytes) (r : FileRevision) (o : Observing C)
      → detector_of branch (receive C delta r o).1.detectors
        ≡ add_all C
            (detector_of branch o.detectors)
            (calls_for branch (receive C delta r o).0 r r.branches)
  unfolding receive
  receive-detector_of branch r o =
      add_to_branches-detector_of branch (receive C delta r o).0 r r.branches o.detectors

  receive_all-detector_of :
      (branch : Bytes) (rs : List FileRevision) (o : Observing C)
      → detector_of branch (receive_all rs o).1.detectors
        ≡ add_all C (detector_of branch o.detectors) (calls_for_all branch (receive_all rs o).0 rs)
  unfolding receive_all calls_for_all add_all
  receive_all-detector_of branch [] o = refl
  receive_all-detector_of branch (r ∷ rs) o =
      let (id, o') = receive C delta r o in
      let calls = calls_for branch id r r.branches in
      let more = calls_for_all branch (receive_all rs o').0 rs in
      receive_all-detector_of branch rs o'
      ∙ ap (λ d. add_all C d more) (receive-detector_of branch r o)
      ∙ sym (add_all-append (detector_of branch o.detectors) calls more)

module _ (C : CommitHeap ℕ) (P : PatchSetHeap ℕ) (O : HashOrder) where
  some-injective {κ} : {A : Type κ} {a b : A} → some a ≡ some b → a ≡ b
  some-injective h = cc

  abbrev Yields : Option (Detector C) → Option (List (PatchSet ℕ)) → Type 0
  Yields none ps = ps ≡ none
  Yields (some d) ps = into_patchset_iter C P O d ≡ ps

  join-lookup {κ} :
      {E : Type κ} (ds : Detectors C)
      → (result : Assoc Bytes (List (PatchSet ℕ))) × (join C P O {E = E} ds ≡ ok result)
        × ((branch : Bytes) → Yields (lookup branch ds) (lookup branch result))
  unfolding join lookup
  join-lookup {E = E} [] = ([], refl, λ branch. refl)
  join-lookup {E = E} ((b, d) ∷ ds) =
      let (ps, e, _, _) = into_patchset_iter-runs C P O d in
      let (rest, e', each) = join-lookup {E = E} ds in
      (
        (b, ps) ∷ rest,
        rw (e, join) (rw e' refl),
        λ branch. elim (Bool-cases (b =? branch)) [
          | inl same ↦ rw same e
          | inr other ↦ rw other (each branch)
        ],
      )

  -- The patchsets of a detector that may be missing, after calls of `add_file_commit`.
  Yields-add_all :
      (delta : ℕ) (adds : List (CommitKey × Commit ℕ)) (d : Option (Detector C))
      (ps : Option (List (PatchSet ℕ)))
      → or_else d (Patchset.new C delta) ≡ add_all C (Patchset.new C delta) adds
      → Yields d ps
      → Sorted patchset_time (or_else ps [])
        × SameItems (flat_map entries (or_else ps [])) (map (λ a. commit_entry a.0 a.1) adds)
  unfolding add_all flat_map
  Yields-add_all delta adds none none same y =
      let (ps, made, _, each) = into_patchset_iter-add_all C P O delta adds in
      let (empty, made', _, each') = into_patchset_iter-add_all C P O delta [] in
      let out : ps ≡ empty =
        some-injective (sym made ∙ ap (into_patchset_iter C P O) (sym same) ∙ made') in
      (tt, λ f. sym (each' f) ∙ ap (λ l. total f (flat_map entries l)) (sym out) ∙ each f)
  Yields-add_all delta adds none (some qs) same y = absurd cc
  Yields-add_all delta adds (some d) out same y =
      let (ps, made, sorted, each) = into_patchset_iter-add_all C P O delta adds in
      let out_ps : out ≡ some ps = sym y ∙ ap (into_patchset_iter C P O) same ∙ made in
      rw out_ps (sorted, each)

  -- For any file revisions that the worker receives, from any state and with no detectors: the collector
  -- has a result with no panic, in which the patchsets of every branch ascend by time and hold, as often
  -- and with the same path, author and message, just the ids that were returned for the revisions with
  -- this branch; a branch that is not in the result has no revisions.
  pub join-receive_all {κ} :
      {E : Type κ} (delta : ℕ) (state : Manager) (rs : List FileRevision)
      → let (ids, o) = receive_all C delta rs (start C state) in
        (result : Assoc Bytes (List (PatchSet ℕ))) × (join C P O {E = E} o.detectors ≡ ok result)
        × ((branch : Bytes)
            → Sorted patchset_time (or_else (lookup branch result) [])
              × SameItems
                  (flat_map entries (or_else (lookup branch result) []))
                  (map (λ a. commit_entry a.0 a.1) (calls_for_all branch ids rs)))
  unfolding lookup detector_of Patchset.new
  join-receive_all {E = E} delta state rs =
      let (ids, o) = receive_all C delta rs (start C state) in
      let (result, e, each) = join-lookup {E = E} o.detectors in
      (
        result,
        e,
        λ branch.
            Yields-add_all delta (calls_for_all branch ids rs) (lookup branch o.detectors)
              (lookup branch result) (receive_all-detector_of C delta branch rs (start C state))
              (each branch),
      )
