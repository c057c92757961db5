-- ===== src/Discovery/Seen.antt =====
-- `handle_revision` of src/discovery.rs: what the state has of a revision once it is handled.
use mathlib.Core.Path.{subst}
use git_cvs_fast_import.Prelude.{
  ℕ, List, [], ◌∷◌, Option, none, some, Bytes, if◌then◌else◌, Outcome, ok, err, panic, >>=-eq-ok,
  ok-injective, ◌≡◌, refl, sym, ap, ◌∙◌, Option-cases, Bool-cases, inl, inr,
}
use git_cvs_fast_import.Prelude.Equality.{◌=?◌, =?_refl, nat_eq, list_eq}
use git_cvs_fast_import.Prelude.Assoc.{lookup, or_else}
use git_cvs_fast_import.Paths.{FilePath}
use git_cvs_fast_import.Num
use git_cvs_fast_import.Num.{Num, num_eq}
use git_cvs_fast_import.CommaV.{Delta, DeltaText}
use git_cvs_fast_import.Patchset.{CommitHeap}
use git_cvs_fast_import.Patchset.Heap.{HashOrder}
use git_cvs_fast_import.State
use git_cvs_fast_import.State.{Key, FileRevision, key_eq, no_file_revision_for_key}
use git_cvs_fast_import.State.FileRevisions
use git_cvs_fast_import.State.Keyed.{IsValid, add-IsValid, get_by_key-add}
use git_cvs_fast_import.State.Manager
use git_cvs_fast_import.State.Manager.{Manager}
use git_cvs_fast_import.Observer
use git_cvs_fast_import.Observer.{Observing, receive, message_for}
use git_cvs_fast_import.FastImport
use git_cvs_fast_import.FastImport.{Writer}
use git_cvs_fast_import.FastImport.Blob
use git_cvs_fast_import.Import
use git_cvs_fast_import.Discovery.{Error, FileRevisionHandler, Place}
use git_cvs_fast_import.Discovery.Revision.{
  branch_iter, is_dead, with_blob, send_blob, tag_all, observed, record_revision, add_revision,
  handle_revision,
}

-- The state has the revision `r` at the path and number.
abbrev pub IsRecorded : Manager → FilePath → Bytes → FileRevision → Type 0
IsRecorded m path revision r = Manager.get_file_revision path revision m ≡ ok r

-- The indexes of the file revisions agree with their list.
abbrev pub IsKeyed : Manager → Type 0
IsKeyed m = IsValid m.file_revisions

-- What is recorded in the first state is so in the second.
abbrev pub Keeps : Manager → Manager → Type 0
Keeps m m' =
    (path : FilePath) (revision : Bytes) (r : FileRevision)
    → IsRecorded m path revision r
    → IsRecorded m' path revision r

pub recorded :
    (m : Manager) (path : FilePath) (revision : Bytes) {r : FileRevision}
    → FileRevisions.get_by_key path revision m.file_revisions ≡ some r
    → IsRecorded m path revision r
unfolding Manager.get_file_revision
recorded m path revision h = rw (h, Manager.get_file_revision) refl

pub unrecorded :
    (m : Manager) (path : FilePath) (revision : Bytes)
    → FileRevisions.get_by_key path revision m.file_revisions ≡ none
    → Manager.get_file_revision path revision m
      ≡ err (no_file_revision_for_key (record { path = path; revision = revision }))
unfolding Manager.get_file_revision
unrecorded m path revision h = rw (h, Manager.get_file_revision) refl

pub recorded_key :
    (m : Manager) (path : FilePath) (revision : Bytes) {r : FileRevision}
    → IsRecorded m path revision r
    → FileRevisions.get_by_key path revision m.file_revisions ≡ some r
unfolding Manager.get_file_revision
recorded_key m path revision {r} h =
    elim (Option-cases (FileRevisions.get_by_key path revision m.file_revisions)) [
      | inl e ↦ absurd (let no = unrecorded m path revision e in cc)
      | inr (q, e) ↦ e ∙ ap some (ok-injective (sym (recorded m path revision e) ∙ h))
    ]

pub unrecorded_key :
    (m : Manager) (path : FilePath) (revision : Bytes) {e : State.Error}
    → Manager.get_file_revision path revision m ≡ err e
    → FileRevisions.get_by_key path revision m.file_revisions ≡ none
unrecorded_key m path revision h =
    elim (Option-cases (FileRevisions.get_by_key path revision m.file_revisions)) [
      | inl e ↦ e
      | inr (q, e) ↦ absurd (let yes = recorded m path revision e in cc)
    ]

-- Two states of which the second has the revision `q` added.
module _ (m m' : Manager) (q : FileRevision)
    (added : m'.file_revisions ≡ (FileRevisions.add q m.file_revisions).1) (v : IsKeyed m) where
  added-IsKeyed : IsKeyed m'
  added-IsKeyed = subst IsValid (sym added) (add-IsValid q m.file_revisions v)

  -- What a lookup in the second state finds.
  lookup_added :
      (k : Key)
      → FileRevisions.get_by_key k.path k.revision m'.file_revisions ≡ (
          if q.key =? k
          then some (or_else (FileRevisions.get_by_key k.path k.revision m.file_revisions) q)
          else FileRevisions.get_by_key k.path k.revision m.file_revisions)
  lookup_added k =
      ap (FileRevisions.get_by_key k.path k.revision) added ∙ get_by_key-add q m.file_revisions v k

  added-Keeps : Keeps m m'
  added-Keeps path revision r found =
      let k : Key = record { path = path; revision = revision } in
      let before = recorded_key m path revision found in
      recorded m' path revision (
        lookup_added k
        ∙ rw before (elim (Bool-cases (q.key =? k)) [ inl e ↦ rw e refl | inr e ↦ rw e refl ]))

  pub added-IsRecorded :
      FileRevisions.get_by_key q.key.path q.key.revision m.file_revisions ≡ none
      → IsRecorded m' q.key.path q.key.revision q
  added-IsRecorded fresh =
      recorded m' q.key.path q.key.revision (lookup_added q.key ∙ rw (fresh, =?_refl q.key) refl)

module _ (C : CommitHeap ℕ) where
  with_blob-observing :
      (p : Place C) (sent : Outcome FastImport.Error (ℕ × Writer)) (out : Option ℕ × Place C)
      → with_blob C p sent ≡ ok out
      → out.1.observing ≡ p.observing
  with_blob-observing p (ok (mark, output)) out h =
      sym (ap (λ (x : Option ℕ × Place C). x.1.observing) (ok-injective h))
  with_blob-observing p (err e) out h = cc
  with_blob-observing p panic out h = cc

  send_blob-observing :
      (content : Bytes) (delta : Delta) (p : Place C) (out : Option ℕ × Place C)
      → send_blob C content delta p ≡ ok out
      → out.1.observing ≡ p.observing
  unfolding send_blob
  send_blob-observing content delta p out h = elim (Bool-cases (is_dead delta.state)) [
    | inl e ↦
        let dead : send_blob C content delta p ≡ ok (none, p) = rw (e, send_blob) refl in
        sym (ap (λ (x : Option ℕ × Place C). x.1.observing) (ok-injective (sym dead ∙ h)))
    | inr e ↦
        let live : send_blob C content delta p
            ≡ with_blob C p (Import.blob (Blob.new content) p.output) =
          rw (e, send_blob) refl in
        with_blob-observing p _ out (sym live ∙ h)
  ]

  pub tag_all-file_revisions :
      (tags : List Bytes) (id : ℕ) (o : Observing C)
      → (tag_all C tags id o).state.file_revisions ≡ o.state.file_revisions
  unfolding tag_all Observer.tag Manager.add_tag
  tag_all-file_revisions [] id o = refl
  tag_all-file_revisions (tag ∷ tags) id o =
      tag_all-file_revisions tags id (Observer.tag C tag id o)

  -- `add_file_revision` of a message
  abbrev pub stored : Observer.FileRevision → FileRevision
  stored r = record {
    key = record { path = r.path; revision = r.revision };
    mark = r.mark;
    branches = r.branches;
    author = r.author;
    message = r.message;
    time = r.time;
  }

  pub observed-file_revisions :
      (limit : ℕ) (r : Observer.FileRevision) (tags : List Bytes) (o : Observing C)
      → (observed C limit r tags o).state.file_revisions
        ≡ (FileRevisions.add (stored r) o.state.file_revisions).1
  unfolding observed receive Manager.add_file_revision
  observed-file_revisions limit r tags o =
      tag_all-file_revisions tags (receive C limit r o).0 (receive C limit r o).1

  module _ (O : HashOrder) (from_utf8_lossy : Bytes → Bytes) (limit : ℕ)
      (h : FileRevisionHandler) where
    abbrev message_of : Num → List Bytes → Option ℕ → Delta → DeltaText → Observer.FileRevision
    message_of revision names mark delta text =
        message_for from_utf8_lossy h.real_path revision names mark delta text

    -- A revision that is added is in the store, with the mark of its blob.
    add_revision-stored :
        (content : Bytes) (revision : Num) (delta : Delta) (text : DeltaText) (p : Place C)
        (out : Option ℕ × Place C)
        → add_revision C O from_utf8_lossy limit h content revision delta text p ≡ ok out
        → (names : List Bytes) × (out.1.observing.state.file_revisions
            ≡ (FileRevisions.add
                (stored (message_of revision names out.0 delta text))
                p.observing.state.file_revisions).1)
    unfolding add_revision record_revision message_for
    add_revision-stored content revision delta text p out done =
        let (sent, blob, rest) = >>=-eq-ok (send_blob C content delta p) _ done in
        let (names, named, last) =
          >>=-eq-ok (branch_iter {E = Error × Place C} revision (O.order (Bytes × Num) h.branches))
            _ rest in
        (
          names,
          subst
              (λ (o : Option ℕ × Place C).
                o.1.observing.state.file_revisions
                ≡ (FileRevisions.add (stored (message_of revision names o.0 delta text))
                    p.observing.state.file_revisions).1)
              (ok-injective last)
              (observed-file_revisions limit (message_of revision names sent.0 delta text)
                  (or_else (lookup revision h.revision_tags) []) sent.1.observing
                ∙ ap
                    (λ (o : Observing C).
                      (FileRevisions.add (stored (message_of revision names sent.0 delta text))
                        o.state.file_revisions).1)
                    (send_blob-observing content delta p sent blob)),
        )

    -- A revision that the state does not have is added.
    pub handle_revision-unseen :
        (content : Bytes) (revision : Num) (delta : Delta) (text : DeltaText) (p : Place C)
        (e : State.Error)
        → Manager.get_file_revision h.real_path (Num.fmt revision) p.observing.state ≡ err e
        → handle_revision C O from_utf8_lossy limit h content revision delta text p
          ≡ add_revision C O from_utf8_lossy limit h content revision delta text p
    unfolding handle_revision
    handle_revision-unseen content revision delta text p e unseen =
        rw (unseen, handle_revision) refl

    -- The invariant, what is recorded, and that nothing is lost, after `add` for a new key.
    abbrev pub IsHandled : Num → Place C → Option ℕ × Place C → Type 0
    IsHandled revision p out =
        IsKeyed out.1.observing.state
        × ((r : FileRevision) × IsRecorded out.1.observing.state h.real_path (Num.fmt revision) r
            × (r.mark ≡ out.0))
        × Keeps p.observing.state out.1.observing.state

    -- For a state whose indexes of file revisions agree with their list, whether it has the revision or
    -- not: if `handle_revision` succeeds, the state has the revision, with the mark that is returned, it
    -- has lost nothing, and its indexes agree with its list.
    pub handle_revision-IsHandled :
        (content : Bytes) (revision : Num) (delta : Delta) (text : DeltaText) (p : Place C)
        (out : Option ℕ × Place C)
        → IsKeyed p.observing.state
        → handle_revision C O from_utf8_lossy limit h content revision delta text p ≡ ok out
        → IsHandled revision p out
    unfolding handle_revision
    handle_revision-IsHandled content revision delta text p out v done =
        elim (Option-cases (
          FileRevisions.get_by_key h.real_path (Num.fmt revision)
            p.observing.state.file_revisions)) [
              | inl fresh ↦
                  let new : handle_revision C O from_utf8_lossy limit h content revision delta text
                        p
                      ≡ add_revision C O from_utf8_lossy limit h content revision delta text p =
                    handle_revision-unseen content revision delta text p _
                      (unrecorded p.observing.state h.real_path (Num.fmt revision) fresh) in
                  let (names, added) =
                    add_revision-stored content revision delta text p out (sym new ∙ done) in
                  let q = stored (message_of revision names out.0 delta text) in
                  let m = p.observing.state in
                  let m' = out.1.observing.state in
                  (
                    added-IsKeyed m m' q added v,
                    (q, added-IsRecorded m m' q added v fresh, refl),
                    added-Keeps m m' q added v,
                  )
              | inr (r, found) ↦
                  let seen = recorded p.observing.state h.real_path (Num.fmt revision) found in
                  let old : handle_revision C O from_utf8_lossy limit h content revision delta text
                        p
                      ≡ ok (r.mark, p) =
                    rw (seen, handle_revision) refl in
                  subst (IsHandled revision p) (ok-injective (sym old ∙ done))
                    (v, (r, seen, refl), λ path number q kept. kept)
            ]
