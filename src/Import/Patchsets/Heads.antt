-- ===== src/Import/Patchsets/Heads.antt =====
-- What `send_patchsets` of src/main.rs leaves in the state: the parents of the commits, and which
-- patchsets are known.
use mathlib.Core.Path.{subst}
use git_cvs_fast_import.Prelude.{
  ℕ, List, [], ◌∷◌, Option, none, some, Bytes, ok, ◌>>=◌, >>=-eq-ok, ok-injective, ◌≡◌, ◌⊎◌, inl,
  inr, refl, sym, ap, ◌∙◌, All, Bool-cases,
}
use git_cvs_fast_import.Prelude.Equality.{◌=?◌, =?_refl, nat_eq, list_eq}
use git_cvs_fast_import.Paths.{FilePath}
use git_cvs_fast_import.Patchset.{PatchSet}
use git_cvs_fast_import.Patchset.Heap.{HashOrder}
use git_cvs_fast_import.State.{patchset_eq}
use git_cvs_fast_import.State.Patchsets as Stored
use git_cvs_fast_import.State.Recorded.{
  content_lookup, get_mark_for_content-add, get_last_mark_on_branch-add,
}
use git_cvs_fast_import.State.Manager
use git_cvs_fast_import.FastImport.Commit
use git_cvs_fast_import.FastImport.Commit.{CommitBuilder}
use git_cvs_fast_import.Import
use git_cvs_fast_import.Import.{World, Error, map_err, fast_import}
use git_cvs_fast_import.Import.Patchsets.{
  file_revision_ids, builder_for, send_new, send_patchset, send_loop, set_head, send_patchsets,
}

-- The state has a mark for the content.
abbrev pub IsKnown : ℕ → List ℕ → Manager.Manager → Type 0
IsKnown time ids state =
    (mark : ℕ) × (Manager.get_mark_from_patchset_content time ids state ≡ some mark)

-- What is known stays known.
abbrev pub Keeps : Manager.Manager → Manager.Manager → Type 0
Keeps before after = (time : ℕ) (ids : List ℕ) → IsKnown time ids before → IsKnown time ids after

module _ (O : HashOrder) (display : FilePath → Bytes) (branch branch_str : Bytes) where
  -- How the state grew by a patchset.
  abbrev Grown : PatchSet ℕ → ℕ → Manager.Manager → Manager.Manager → Type 0
  Grown p mark before after =
      ((Manager.get_mark_from_patchset_content p.time (file_revision_ids O p) before ≡ some mark)
        × (after ≡ Manager.add_branch_to_patchset_mark mark branch before))
      ⊎ (after ≡ Manager.add_patchset mark branch p.time (file_revision_ids O p) before)

  send_new-Grown :
      (builder : CommitBuilder) (p : PatchSet ℕ) (w : World) (mark : ℕ) (w' : World)
      → send_new O display branch branch_str builder p w ≡ ok (mark, w')
      → w'.state ≡ Manager.add_patchset mark branch p.time (file_revision_ids O p) w.state
  unfolding send_new
  send_new-Grown builder p w mark w' e =
      let (c, built, rest) = >>=-eq-ok (map_err fast_import (Commit.build builder)) _ e in
      let (sent, done, last) = >>=-eq-ok (map_err fast_import (Import.commit c w.output)) _ rest in
      let pair = ok-injective last in
      sym (ap (λ x. x.1.state) pair)
      ∙ ap (λ m. Manager.add_patchset m branch p.time (file_revision_ids O p) w.state)
          (ap (λ x. x.0) pair)

  send_patchset-Grown :
      (from : Option ℕ) (p : PatchSet ℕ) (w : World) (mark : ℕ) (w' : World)
      → send_patchset O display branch branch_str from p w ≡ ok (mark, w')
      → Grown p mark w.state w'.state
  unfolding send_patchset
  send_patchset-Grown from p w mark w' e =
      let (builder, built, rest) =
        >>=-eq-ok (builder_for O display branch branch_str from p w.state) _ e in
      known builder (Manager.get_mark_from_patchset_content p.time (file_revision_ids O p) w.state)
        refl rest
    where
      known :
          (builder : CommitBuilder) (found : Option ℕ)
          → Manager.get_mark_from_patchset_content p.time (file_revision_ids O p) w.state ≡ found
          → (elim found [
            | some m ↦ ok (
              m,
              record {
                state = Manager.add_branch_to_patchset_mark m branch w.state;
                output = w.output;
              },
            )
            | none ↦ send_new O display branch branch_str builder p w
          ])
            ≡ ok (mark, w')
          → Grown p mark w.state w'.state
      known builder none h r = inr (send_new-Grown builder p w mark w' r)
      known builder (some m) h r =
          let pair = ok-injective r in
          let same = ap (λ x. x.0) pair in
          inl (
            h ∙ ap some same,
            sym (ap (λ x. x.1.state) pair)
                ∙ ap (λ k. Manager.add_branch_to_patchset_mark k branch w.state) same,
          )

  Grown-head :
      (p : PatchSet ℕ) (mark : ℕ) (before after : Manager.Manager)
      → Grown p mark before after
      → Manager.get_last_patchset_mark_on_branch branch after ≡ some mark
  unfolding Manager.get_last_patchset_mark_on_branch Manager.add_patchset
      Manager.add_branch_to_patchset_mark
  Grown-head p mark before after (inl (h, e)) =
      ap (Manager.get_last_patchset_mark_on_branch branch) e
      ∙ (get_last_mark_on_branch-add mark branch branch p.time [] before.patchsets).1
      ∙ rw (=?_refl branch) refl
  Grown-head p mark before after (inr e) =
      ap (Manager.get_last_patchset_mark_on_branch branch) e
      ∙ (get_last_mark_on_branch-add mark branch branch p.time (file_revision_ids O p)
          before.patchsets).0
      ∙ rw (=?_refl branch) refl

  Grown-IsKnown :
      (p : PatchSet ℕ) (mark : ℕ) (before after : Manager.Manager)
      → Grown p mark before after
      → IsKnown p.time (file_revision_ids O p) after
  unfolding Manager.get_mark_from_patchset_content Manager.add_patchset
      Manager.add_branch_to_patchset_mark Stored.get_mark_for_content Stored.add_branch_to_patchset
  Grown-IsKnown p mark before after (inl (h, e)) =
      (mark, ap (Manager.get_mark_from_patchset_content p.time (file_revision_ids O p)) e ∙ h)
  Grown-IsKnown p mark before after (inr e) = (
    mark,
    ap (Manager.get_mark_from_patchset_content p.time (file_revision_ids O p)) e
        ∙ (get_mark_for_content-add mark branch p.time (file_revision_ids O p) before.patchsets).0
            (file_revision_ids O p) (λ z. refl),
  )

  Grown-Keeps :
      (p : PatchSet ℕ) (mark : ℕ) (before after : Manager.Manager)
      → Grown p mark before after
      → Keeps before after
  unfolding Manager.get_mark_from_patchset_content Manager.add_patchset
      Manager.add_branch_to_patchset_mark Stored.get_mark_for_content Stored.add_branch_to_patchset
  Grown-Keeps p mark before after (inl (h, e)) time ids (m, known) =
      (m, ap (Manager.get_mark_from_patchset_content time ids) e ∙ known)
  Grown-Keeps p mark before after (inr e) time ids (m, known) =
      let there =
        ap (Manager.get_mark_from_patchset_content time ids) e
        ∙ content_lookup mark branch p.time (file_revision_ids O p) before.patchsets time ids in
      elim (Bool-cases
        (Stored.build_patchset p.time (file_revision_ids O p) =? Stored.build_patchset time ids)) [
          | inl same ↦ (mark, there ∙ rw same refl)
          | inr differ ↦ (m, there ∙ rw differ known)
        ]

  -- What the loop keeps: the parent of the next commit is the last mark on the branch.
  send_loop-heads :
      (ps : List (PatchSet ℕ)) (from : Option ℕ) (w : World) (from' : Option ℕ) (w' : World)
      → Manager.get_last_patchset_mark_on_branch branch w.state ≡ from
      → send_loop O display branch branch_str from ps w ≡ ok (from', w')
      → (Manager.get_last_patchset_mark_on_branch branch w'.state ≡ from')
        × Keeps w.state w'.state
        × All (λ p. IsKnown p.time (file_revision_ids O p) w'.state) ps
  unfolding send_loop
  send_loop-heads [] from w from' w' head e =
      let pair = ok-injective e in
      let state = ap (λ x. x.1.state) pair in
      (
        ap (Manager.get_last_patchset_mark_on_branch branch) (sym state)
            ∙ head
            ∙ ap (λ x. x.0) pair,
        (λ time ids known. subst (IsKnown time ids) state known),
        tt,
      )
  send_loop-heads (p ∷ ps) from w from' w' head e =
      let ((mark, mid), sent, rest) =
        >>=-eq-ok (send_patchset O display branch branch_str from p w) _ e in
      let grown = send_patchset-Grown from p w mark mid sent in
      let (last, keeps, all) =
        send_loop-heads ps (some mark) mid from' w' (Grown-head p mark w.state mid.state grown)
          rest in
      (
        last,
        (λ time ids known.
            keeps time ids (Grown-Keeps p mark w.state mid.state grown time ids known)),
        (keeps p.time (file_revision_ids O p) (Grown-IsKnown p mark w.state mid.state grown), all),
      )

  set_head-state : (from : Option ℕ) (w : World) → (set_head branch_str from w).state ≡ w.state
  set_head-state none w = refl
  set_head-state (some mark) w = refl

  send_patchsets_open :
      (from_utf8 : Bytes → Option Bytes) (ps : List (PatchSet ℕ)) (w : World)
      → from_utf8 branch ≡ some branch_str
      → send_patchsets O display from_utf8 branch ps w ≡ (
          send_loop O display branch branch_str
            (Manager.get_last_patchset_mark_on_branch branch w.state)
            ps
            w
          >>= λ r. ok (set_head branch_str r.0 r.1))
  unfolding send_patchsets
  send_patchsets_open from_utf8 ps w utf8 = rw (utf8, send_patchsets) refl

  -- When `send_patchsets` succeeds, every patchset that it was given is known in the state that it
  -- leaves, what was known before is still known, and the head of the branch in git is set to the
  -- last mark that this state has on the branch, if there is one.
  pub send_patchsets-heads :
      (from_utf8 : Bytes → Option Bytes) (ps : List (PatchSet ℕ)) (w w' : World)
      → from_utf8 branch ≡ some branch_str
      → send_patchsets O display from_utf8 branch ps w ≡ ok w'
      → All (λ p. IsKnown p.time (file_revision_ids O p) w'.state) ps
        × Keeps w.state w'.state
        × ((sent : World) × (w'
              ≡ set_head branch_str
                  (Manager.get_last_patchset_mark_on_branch branch w'.state)
                  sent))
  send_patchsets-heads from_utf8 ps w w' utf8 e =
      let start = Manager.get_last_patchset_mark_on_branch branch w.state in
      let ((from, sent), looped, last) =
        >>=-eq-ok (send_loop O display branch branch_str start ps w)
          (λ r. ok (set_head branch_str r.0 r.1))
          (sym (send_patchsets_open from_utf8 ps w utf8) ∙ e) in
      let (head, keeps, all) = send_loop-heads ps start w from sent refl looped in
      let whole = ok-injective last in
      let state : sent.state ≡ w'.state =
        sym (set_head-state from sent) ∙ ap (λ x. x.state) whole in
      let marks : from ≡ Manager.get_last_patchset_mark_on_branch branch w'.state =
        sym head ∙ ap (Manager.get_last_patchset_mark_on_branch branch) state in
      (
        subst (λ m. All (λ p. IsKnown p.time (file_revision_ids O p) m) ps) state all,
        subst (Keeps w.state) state keeps,
        (sent, sym whole ∙ ap (λ f. set_head branch_str f sent) marks),
      )
