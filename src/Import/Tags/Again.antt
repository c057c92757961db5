-- ===== src/Import/Tags/Again.antt =====
-- A tag that was processed by src/tag.rs is not processed again.
use mathlib.Core.Path.{subst}
use git_cvs_fast_import.Prelude.{
  ℕ, List, none, some, Bytes, ok, ◌>>=◌, >>=-eq-ok, ok-injective, ◌≡◌, refl, sym, ap, ◌∙◌,
  Option-cases, if◌then◌else◌, inl, inr, ◌⊎◌, Bool, true, false,
}
use git_cvs_fast_import.Prelude.Equality.{◌=?◌, =?_refl, nat_eq, list_eq}
use git_cvs_fast_import.Prelude.Assoc.{lookup-insert}
use git_cvs_fast_import.Paths.{FilePath}
use git_cvs_fast_import.State.{PatchSet}
use git_cvs_fast_import.State.IdSet.{collect}
use git_cvs_fast_import.State.Members.{Ascending, Ascending-unique, collect-Ascending, mem-collect}
use git_cvs_fast_import.State.Patchsets as Stored
use git_cvs_fast_import.State.Tags as Stored_tags
use git_cvs_fast_import.State.Manager
use git_cvs_fast_import.FastImport.Identity.{Identity}
use git_cvs_fast_import.FastImport.Commit
use git_cvs_fast_import.Import
use git_cvs_fast_import.Import.{World, Error, map_err, fast_import, state_error}
use git_cvs_fast_import.Import.Tags.{
  Parent, previous_tag, unparented, gather, send_fake_commit, process, with_parent,
}

collect-id : (ids : List ℕ) → Ascending ids → collect ids ≡ ids
collect-id ids a =
    Ascending-unique (collect ids) ids (collect-Ascending ids) a (λ z. mem-collect z ids)

-- The state after a fake commit for the tag with the ids.
abbrev Recorded : Bytes → List ℕ → Manager.Manager → Manager.Manager → Type 0
Recorded tag ids before after =
    (mark : ℕ) × (time : ℕ) × (after
      ≡ Manager.add_tag_mark tag mark (Manager.add_patchset mark tag time ids before))

ids_kept :
    (tag : Bytes) (mark time : ℕ) (ids : List ℕ) (m : Manager.Manager)
    → Manager.get_file_revisions_for_tag tag
        (Manager.add_tag_mark tag mark (Manager.add_patchset mark tag time ids m))
      ≡ Manager.get_file_revisions_for_tag tag m
unfolding Manager.get_file_revisions_for_tag Manager.add_tag_mark Manager.add_patchset
    Stored_tags.get_file_revisions Stored_tags.add_mark
ids_kept tag mark time ids m = refl

mark_set :
    (tag : Bytes) (mark time : ℕ) (ids : List ℕ) (m : Manager.Manager)
    → Manager.get_mark_for_tag tag
        (Manager.add_tag_mark tag mark (Manager.add_patchset mark tag time ids m))
      ≡ some mark
unfolding Manager.get_mark_for_tag Manager.add_tag_mark Manager.add_patchset Stored_tags.get_mark
    Stored_tags.add_mark
mark_set tag mark time ids m = lookup-insert tag tag mark m.tags.marks ∙ rw (=?_refl tag) refl

from_mark :
    (mark : ℕ) (p : PatchSet) (m : Manager.Manager)
    → Stored.get_by_mark mark m.patchsets ≡ some p
    → Manager.get_patchset_from_mark mark m ≡ ok p
unfolding Manager.get_patchset_from_mark
from_mark mark p m h = rw (h, Manager.get_patchset_from_mark) refl

patchset_set :
    (tag : Bytes) (mark time : ℕ) (ids : List ℕ) (m : Manager.Manager)
    → Manager.get_patchset_from_mark mark
        (Manager.add_tag_mark tag mark (Manager.add_patchset mark tag time ids m))
      ≡ ok (Stored.build_patchset time ids)
unfolding Manager.add_tag_mark Manager.add_patchset Stored.get_by_mark Stored.add
patchset_set tag mark time ids m =
    from_mark mark (Stored.build_patchset time ids)
      (Manager.add_tag_mark tag mark (Manager.add_patchset mark tag time ids m))
      (lookup-insert mark mark (Stored.build_patchset time ids) m.patchsets.patchsets
        ∙ rw (=?_refl mark) refl)

module _ (from_utf8_lossy : Bytes → Bytes) (display : FilePath → Bytes) (identity : Identity) where
  send_fake_commit-Recorded :
      (tag : Bytes) (ids : List ℕ) (start : Parent) (w w' : World)
      → send_fake_commit from_utf8_lossy display identity tag ids start w ≡ ok w'
      → Recorded tag ids w.state w'.state
  unfolding send_fake_commit
  send_fake_commit-Recorded tag ids start w w' e =
      let (g, gathered, rest) =
        >>=-eq-ok (gather from_utf8_lossy display identity w.state ids _) _ e in
      let (c, built, rest) =
        >>=-eq-ok (map_err fast_import (Commit.build (with_parent g.parent g.builder))) _ rest in
      let (sent, done, last) = >>=-eq-ok (map_err fast_import (Import.commit c w.output)) _ rest in
      (sent.0, g.time, sym (ap (λ x. x.state) (ok-injective last)))

  -- With the tag's mark leading to a patchset of the tag's ids, there is nothing to do.
  process_known :
      (tag : Bytes) (ids : List ℕ) (mark : ℕ) (p : PatchSet) (w : World)
      → Manager.get_file_revisions_for_tag tag w.state ≡ some ids
      → Manager.get_mark_for_tag tag w.state ≡ some mark
      → Manager.get_patchset_from_mark mark w.state ≡ ok p
      → p.file_revisions ≡ ids
      → process from_utf8_lossy display identity tag w ≡ ok w
  unfolding process
  process_known tag ids mark p w he hm hp same =
      rw (he, process) (rw hm (rw hp (rw (sym same, =?_refl p.file_revisions) refl)))

  Recorded-process :
      (tag : Bytes) (ids : List ℕ) (w w' : World)
      → Ascending ids
      → Manager.get_file_revisions_for_tag tag w.state ≡ some ids
      → Recorded tag ids w.state w'.state
      → process from_utf8_lossy display identity tag w' ≡ ok w'
  Recorded-process tag ids w w' ascending he (mark, time, e) =
      process_known tag ids mark (Stored.build_patchset time ids) w'
        (ap (Manager.get_file_revisions_for_tag tag) e ∙ ids_kept tag mark time ids w.state ∙ he)
        (ap (Manager.get_mark_for_tag tag) e ∙ mark_set tag mark time ids w.state)
        (ap (Manager.get_patchset_from_mark mark) e ∙ patchset_set tag mark time ids w.state)
        (unfold Stored.build_patchset in collect-id ids ascending)

  process_without_ids :
      (tag : Bytes) (w : World)
      → Manager.get_file_revisions_for_tag tag w.state ≡ none
      → process from_utf8_lossy display identity tag w ≡ ok w
  unfolding process
  process_without_ids tag w h = rw (h, process) refl

  process_first :
      (tag : Bytes) (ids : List ℕ) (w : World)
      → Manager.get_file_revisions_for_tag tag w.state ≡ some ids
      → Manager.get_mark_for_tag tag w.state ≡ none
      → process from_utf8_lossy display identity tag w
        ≡ send_fake_commit from_utf8_lossy display identity tag ids unparented w
  unfolding process
  process_first tag ids w h hm = rw (h, process) (rw hm refl)

  process_later :
      (tag : Bytes) (ids : List ℕ) (mark : ℕ) (w : World)
      → Manager.get_file_revisions_for_tag tag w.state ≡ some ids
      → Manager.get_mark_for_tag tag w.state ≡ some mark
      → process from_utf8_lossy display identity tag w ≡ (
          map_err state_error (Manager.get_patchset_from_mark mark w.state) >>= λ p.
          if p.file_revisions =? ids
          then ok w
          else send_fake_commit from_utf8_lossy display identity tag ids (previous_tag mark) w)
  unfolding process
  process_later tag ids mark w h hm = rw (h, process) (rw hm refl)

  if_cases :
      (test : Bool) (tag : Bytes) (ids : List ℕ) (mark : ℕ) (w w' : World)
      → Manager.get_file_revisions_for_tag tag w.state ≡ some ids
      → (if test
          then ok w
          else send_fake_commit from_utf8_lossy display identity tag ids (previous_tag mark) w)
        ≡ ok w'
      → (w ≡ w')
        ⊎ ((ids : List ℕ) × (Manager.get_file_revisions_for_tag tag w.state ≡ some ids)
            × Recorded tag ids w.state w'.state)
  if_cases true tag ids mark w w' there e = inl (ok-injective e)
  if_cases false tag ids mark w w' there e =
      inr (ids, there, send_fake_commit-Recorded tag ids (previous_tag mark) w w' e)

  process-cases :
      (tag : Bytes) (w w' : World)
      → process from_utf8_lossy display identity tag w ≡ ok w'
      → (w ≡ w')
        ⊎ ((ids : List ℕ) × (Manager.get_file_revisions_for_tag tag w.state ≡ some ids)
            × Recorded tag ids w.state w'.state)
  process-cases tag w w' e = elim (Option-cases (Manager.get_file_revisions_for_tag tag w.state)) [
    | inl gone ↦ inl (ok-injective (sym (process_without_ids tag w gone) ∙ e))
    | inr (ids, there) ↦ (elim (Option-cases (Manager.get_mark_for_tag tag w.state)) [
      | inl first ↦ inr (
        ids,
        there,
        send_fake_commit-Recorded tag ids unparented w w'
            (sym (process_first tag ids w there first) ∙ e),
      )
      | inr (mark, seen) ↦
          let (p, got, rest) =
            >>=-eq-ok (map_err state_error (Manager.get_patchset_from_mark mark w.state))
              (λ p.
                if p.file_revisions =? ids
                then ok w
                else send_fake_commit from_utf8_lossy display identity tag ids (previous_tag mark)
                    w)
              (sym (process_later tag ids mark w there seen) ∙ e) in
          if_cases (p.file_revisions =? ids) tag ids mark w w' there rest
    ])
  ]

  -- If the ids of the tag are a set in ascending order, as a `BTreeSet` has them, and `process` of the
  -- tag succeeds, then processing the tag once more succeeds and changes nothing: no second fake
  -- commit is sent.
  pub process-process :
      (tag : Bytes) (w w' : World)
      → ((ids : List ℕ) → Manager.get_file_revisions_for_tag tag w.state ≡ some ids → Ascending ids)
      → process from_utf8_lossy display identity tag w ≡ ok w'
      → process from_utf8_lossy display identity tag w' ≡ ok w'
  process-process tag w w' ascending e = elim (process-cases tag w w' e) [
    | inl same ↦ subst (λ x. process from_utf8_lossy display identity tag x ≡ ok w') same e
    | inr (ids, there, recorded) ↦
        Recorded-process tag ids w w' (ascending ids there) there recorded
  ]
