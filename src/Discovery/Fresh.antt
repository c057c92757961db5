-- ===== src/Discovery/Fresh.antt =====
-- `handle_revision` of src/discovery.rs on a revision that the state does not have: it succeeds, and
-- what it records and sends.
use git_cvs_fast_import.Prelude.{
  ℕ, suc, ◌<◌, List, [], ◌∷◌, Option, none, some, Bytes, Bool, true, false, ◌||◌, ◌++◌,
  if◌then◌else◌, ok, err, ◌≡◌, refl, sym, ap, ◌∙◌, arith, Bool-cases, inl, inr, All,
}
use git_cvs_fast_import.Prelude.Equality.{=?_refl, nat_eq, list_eq}
use git_cvs_fast_import.Prelude.Assoc.{lookup, or_else}
use git_cvs_fast_import.Decimal.{max_u64}
use git_cvs_fast_import.Num
use git_cvs_fast_import.Num.{Num, num_eq}
use git_cvs_fast_import.Num.Contains.{is_on, is_beside, IsBranch, IsCommit, contains-is_on}
use git_cvs_fast_import.CommaV.{Delta, DeltaText}
use git_cvs_fast_import.Patchset.{CommitHeap}
use git_cvs_fast_import.Patchset.Heap.{HashOrder}
use git_cvs_fast_import.State
use git_cvs_fast_import.State.FileRevisions
use git_cvs_fast_import.State.Keyed.{get_by_id-indexed}
use git_cvs_fast_import.State.Manager
use git_cvs_fast_import.State.Tags.{has_id, has_id-add_tag}
use git_cvs_fast_import.Observer
use git_cvs_fast_import.Observer.{Observing, receive, message_for}
use git_cvs_fast_import.FastImport.{Writer}
use git_cvs_fast_import.FastImport.Blob
use git_cvs_fast_import.FastImport.Read.{command-eq}
use git_cvs_fast_import.Import
use git_cvs_fast_import.Discovery.{Error, FileRevisionHandler, Place}
use git_cvs_fast_import.Discovery.Revision.{
  name_if, branch_iter, is_dead, with_blob, send_blob, tag_all, observed, record_revision,
  add_revision, handle_revision,
}
use git_cvs_fast_import.Discovery.Seen.{
  IsKeyed, IsRecorded, stored, recorded_key, unrecorded_key, handle_revision-unseen,
  added-IsRecorded, observed-file_revisions,
}

-- A branch with its number, which has an odd number of parts.
abbrev pub IsHead : Bytes × Num → Type 0
IsHead (name, Num.branch parts) = IsBranch parts
IsHead (name, Num.commit parts) = ⊥

-- The branches that a commit is on, and those that it is beside.
unfoldable pub branches_of : List ℕ → List (Bytes × Num) → List Bytes
unfolding is_on is_beside
branches_of c [] = []
branches_of c ((name, Num.branch b) ∷ heads) =
    let rest = branches_of c heads in if is_on b c || is_beside b c then name ∷ rest else rest
branches_of c ((name, Num.commit b) ∷ heads) = branches_of c heads

name_if_lem {κ} :
    {E : Type κ} (name : Bytes) (t : Bool) (names : List Bytes)
    → name_if {E = E} name (ok t) (ok names) ≡ ok (if t then name ∷ names else names)
name_if_lem name true names = refl
name_if_lem name false names = refl

branch_iter-branches_of {κ} :
    {E : Type κ} (c : List ℕ) (heads : List (Bytes × Num))
    → IsCommit c
    → All IsHead heads
    → branch_iter {E = E} (Num.commit c) heads ≡ ok (branches_of c heads)
unfolding branch_iter branches_of
branch_iter-branches_of c [] even odd = refl
branch_iter-branches_of {E = E} c ((name, Num.branch b) ∷ heads) even (odd, more) =
    ap (λ t. name_if {E = E} name t (branch_iter {E = E} (Num.commit c) heads))
      (contains-is_on b c odd even)
    ∙ ap (name_if {E = E} name (ok (is_on b c || is_beside b c)))
        (branch_iter-branches_of {E = E} c heads even more)
    ∙ name_if_lem {E = E} name (is_on b c || is_beside b c) (branches_of c heads)
branch_iter-branches_of c ((name, Num.commit b) ∷ heads) even (odd, more) = absurd odd

or-true : (a b : Bool) → b ≡ true → (a || b) ≡ true
or-true a b h = ground arith

by_id_ok :
    (id : ℕ) (m : Manager.Manager) {r : State.FileRevision}
    → FileRevisions.get_by_id id m.file_revisions ≡ some r
    → Manager.get_file_revision_by_id id m ≡ ok r
unfolding Manager.get_file_revision_by_id
by_id_ok id m h = rw (h, Manager.get_file_revision_by_id) refl

module _ (C : CommitHeap ℕ) where
  -- The mark and the output after the blob, if there is one.
  abbrev pub sent_output : Bytes → Delta → Writer → Option ℕ × Writer
  sent_output content delta w = if is_dead delta.state then (none, w) else (
    some w.next_mark,
    record {
      written = w.written ++ Blob.write (Blob.new content) w.next_mark;
      next_mark = suc w.next_mark;
    },
  )

  send_blob_total :
      (content : Bytes) (delta : Delta) (p : Place C)
      → p.output.next_mark < max_u64
      → send_blob C content delta p
        ≡ ok (
          (sent_output content delta p.output).0,
          record p { output = (sent_output content delta p.output).1 },
        )
  unfolding send_blob Import.blob
  send_blob_total content delta p room = elim (Bool-cases (is_dead delta.state)) [
    | inl e ↦ rw e refl
    | inr e ↦ rw e (ap (with_blob C p) (command-eq (Blob.write (Blob.new content)) p.output room))
  ]

  -- The tags' loop leaves every tag with the id, and no tag loses one.
  has_id-tag_all :
      (tags : List Bytes) (id : ℕ) (o : Observing C) (t : Bytes)
      → has_id t id o.state.tags ≡ true
      → has_id t id (tag_all C tags id o).state.tags ≡ true
  unfolding tag_all Observer.tag Manager.add_tag
  has_id-tag_all [] id o t h = h
  has_id-tag_all (tag ∷ tags) id o t h =
      has_id-tag_all tags id (Observer.tag C tag id o) t
        (has_id-add_tag tag id o.state.tags t id ∙ or-true _ _ h)

  tag_all_tagged :
      (tags : List Bytes) (id : ℕ) (o : Observing C)
      → All (λ t. has_id t id (tag_all C tags id o).state.tags ≡ true) tags
  unfolding tag_all Observer.tag Manager.add_tag
  tag_all_tagged [] id o = tt
  tag_all_tagged (tag ∷ tags) id o = (
    has_id-tag_all tags id (Observer.tag C tag id o) tag
        (has_id-add_tag tag id o.state.tags tag id ∙ rw (=?_refl tag, =?_refl id) refl),
    tag_all_tagged tags id (Observer.tag C tag id o),
  )

  -- What the observer leaves in the state for a message with a new key.
  observed_lem :
      (limit : ℕ) (r : Observer.FileRevision) (tags : List Bytes) (o : Observing C)
      (e : State.Error)
      → IsKeyed o.state
      → Manager.get_file_revision r.path r.revision o.state ≡ err e
      → let id = (receive C limit r o).0 in
        let o' = observed C limit r tags o in
        IsRecorded o'.state r.path r.revision (stored C r)
        × (Manager.get_file_revision_by_id id o'.state ≡ ok (stored C r))
        × All (λ t. has_id t id o'.state.tags ≡ true) tags
  unfolding receive Manager.add_file_revision observed
  observed_lem limit r tags o e v fresh =
      let o' = observed C limit r tags o in
      let id = (receive C limit r o).0 in
      let is_new = unrecorded_key o.state r.path r.revision fresh in
      let added = observed-file_revisions C limit r tags o in
      let here = added-IsRecorded o.state o'.state (stored C r) added v is_new in
      let by_key = recorded_key o'.state r.path r.revision here in
      let by_id : FileRevisions.get_by_id id o'.state.file_revisions ≡ some (stored C r) =
        ap (FileRevisions.get_by_id id) added
        ∙ get_by_id-indexed (stored C r) o.state.file_revisions
        ∙ sym (ap (FileRevisions.get_by_key r.path r.revision) added)
        ∙ by_key in
      (here, by_id_ok id o'.state by_id, tag_all_tagged tags id (receive C limit r o).1)

  module _ (O : HashOrder) (from_utf8_lossy : Bytes → Bytes) (limit : ℕ)
      (h : FileRevisionHandler) where
    abbrev pub message_of : List ℕ → Bytes → Delta → DeltaText → Writer → Observer.FileRevision
    message_of c content delta text w =
        message_for from_utf8_lossy h.real_path (Num.commit c)
          (branches_of c (O.order (Bytes × Num) h.branches)) (sent_output content delta w).0 delta
          text

    abbrev pub tags_of : List ℕ → List Bytes
    unfolding lookup
    tags_of c = or_else (lookup (Num.commit c) h.revision_tags) []

    add_revision_total :
        (content : Bytes) (c : List ℕ) (delta : Delta) (text : DeltaText) (p : Place C)
        → IsCommit c
        → All IsHead (O.order (Bytes × Num) h.branches)
        → p.output.next_mark < max_u64
        → add_revision C O from_utf8_lossy limit h content (Num.commit c) delta text p
          ≡ ok (
            (sent_output content delta p.output).0,
            record {
              observing =
                  observed C limit
                    (message_of c content delta text p.output)
                    (tags_of c)
                    p.observing;
              output = (sent_output content delta p.output).1;
            },
          )
    unfolding add_revision record_revision
    add_revision_total content c delta text p even odd room =
        rw (send_blob_total content delta p room) (
          rw
            (branch_iter-branches_of {E = Error × Place C} c (O.order (Bytes × Num) h.branches) even
              odd)
            refl)

    -- For a revision with an even number of parts that the state does not have, branches with odd
    -- numbers of parts, a mark that is left, and a state whose indexes of file revisions agree with
    -- their list: `handle_revision` succeeds; it sends the contents as a blob and returns its mark, or,
    -- for a dead revision, sends and returns nothing; and the state has the revision with this mark and
    -- just the branches that it is on or beside, and its id is in each of its tags. It is beside a branch
    -- if it goes along with the branch, leaves the way at an earlier revision, and is no deeper and behind
    -- the branch nowhere from there on: such a branch is recorded though the revision is not on it. A
    -- revision of no parts counts as on every branch.
    pub handle_revision-fresh :
        (content : Bytes) (c : List ℕ) (delta : Delta) (text : DeltaText) (p : Place C)
        (e : State.Error)
        → IsCommit c
        → All IsHead (O.order (Bytes × Num) h.branches)
        → p.output.next_mark < max_u64
        → IsKeyed p.observing.state
        → Manager.get_file_revision h.real_path (Num.fmt (Num.commit c)) p.observing.state ≡ err e
        → let (mark, output) = sent_output content delta p.output in
          let r = stored C (message_of c content delta text p.output) in
          (id : ℕ) × (observing : Observing C) × (handle_revision C O from_utf8_lossy limit h
              content
              (Num.commit c)
              delta
              text
              p
            ≡ ok (mark, record { observing = observing; output = output }))
          × IsRecorded observing.state h.real_path (Num.fmt (Num.commit c)) r
          × (Manager.get_file_revision_by_id id observing.state ≡ ok r)
          × All (λ t. has_id t id observing.state.tags ≡ true) (tags_of c)
    unfolding message_for Num.fmt
    handle_revision-fresh content c delta text p e even odd room v fresh =
        let message = message_of c content delta text p.output in
        let (here, by_id, tagged) = observed_lem limit message (tags_of c) p.observing e v fresh in
        (
          (receive C limit message p.observing).0,
          observed C limit message (tags_of c) p.observing,
          (handle_revision-unseen C O from_utf8_lossy limit h content (Num.commit c) delta text p e
                fresh
              ∙ add_revision_total content c delta text p even odd room),
          here,
          by_id,
          tagged,
        )
