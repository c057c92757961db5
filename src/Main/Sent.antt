-- ===== src/Main/Sent.antt =====
-- The loop of `main` in src/main.rs over the branches: what the state knows once they are sent.
use mathlib.Core.Path.{subst}
use git_cvs_fast_import.Prelude.{
  ℕ, List, [], ◌∷◌, Option, Bytes, Bool, true, false, ok, err, ◌>>=◌, >>=-eq-ok, ok-injective, ◌≡◌,
  refl, sym, ◌∙◌, All, All-implies, Bool-cases, Option-cases, inl, inr,
}
use git_cvs_fast_import.Prelude.Assoc.{Assoc}
use git_cvs_fast_import.Paths.{FilePath}
use git_cvs_fast_import.Patchset.{PatchSet}
use git_cvs_fast_import.Patchset.Heap.{HashOrder}
use git_cvs_fast_import.State.Manager
use git_cvs_fast_import.Import.{World, utf8, BranchFilter, filter_contains}
use git_cvs_fast_import.Import.Patchsets.{file_revision_ids, send_patchsets}
use git_cvs_fast_import.Import.Patchsets.Heads.{IsKnown, Keeps, send_patchsets-heads}
use git_cvs_fast_import.Main.{send_branches}

-- A claim that is made only where the test holds.
abbrev pub OnlyIf : Bool → Type 0 → Type 0
OnlyIf true A = A
OnlyIf false A = Unit

module _ (O : HashOrder) (display : FilePath → Bytes) (from_utf8 : Bytes → Option Bytes)
    (filter : BranchFilter) where
  -- The state has every patchset of the branch, if the filter lets the branch through.
  abbrev pub IsSent : Manager.Manager → Bytes × List (PatchSet ℕ) → Type 0
  unfolding filter_contains
  IsSent state (branch, patchsets) =
      OnlyIf (filter_contains filter branch)
        (All (λ p. IsKnown p.time (file_revision_ids O p) state) patchsets)

  -- `send_patchsets` on one branch, whose name must have been UTF-8.
  send_patchsets-IsKnown :
      (branch : Bytes) (ps : List (PatchSet ℕ)) (w w' : World)
      → send_patchsets O display from_utf8 branch ps w ≡ ok w'
      → All (λ p. IsKnown p.time (file_revision_ids O p) w'.state) ps × Keeps w.state w'.state
  unfolding send_patchsets
  send_patchsets-IsKnown branch ps w w' e = elim (Option-cases (from_utf8 branch)) [
    | inl bad ↦ absurd (
        let failed : send_patchsets O display from_utf8 branch ps w ≡ err utf8 =
          rw (bad, send_patchsets) refl in
        cc)
    | inr (branch_str, valid) ↦
        let (known, keeps, _) =
          send_patchsets-heads O display branch branch_str from_utf8 ps w w' valid e in
        (known, keeps)
  ]

  only_if_true : {t : Bool} {A : Type 0} → t ≡ true → A → OnlyIf t A
  only_if_true {t} {A} through a = subst (λ x. OnlyIf x A) (sym through) a

  only_if_false : {t : Bool} (A : Type 0) → t ≡ false → OnlyIf t A
  only_if_false A passed = subst (λ x. OnlyIf x A) (sym passed) tt

  -- When the loop over the branches succeeds, the state that it leaves knows every patchset of each
  -- branch that the filter lets through, and what was known before is still known.
  pub send_branches-IsSent :
      (branches : Assoc Bytes (List (PatchSet ℕ))) (w w' : World)
      → send_branches O display from_utf8 filter branches w ≡ ok w'
      → All (IsSent w'.state) branches × Keeps w.state w'.state
  unfolding send_branches IsSent
  send_branches-IsSent [] w w' e =
      (tt, subst (λ (x : World). Keeps w.state x.state) (ok-injective e) (λ time ids known. known))
  send_branches-IsSent ((branch, ps) ∷ branches) w w' e =
      elim (Bool-cases (filter_contains filter branch)) [
        | inl through ↦
            let sent : send_branches O display from_utf8 filter ((branch, ps) ∷ branches) w ≡ (
                send_patchsets O display from_utf8 branch ps w
                >>= send_branches O display from_utf8 filter branches) =
              rw (through, send_branches) refl in
            let (mid, first, rest) =
              >>=-eq-ok (send_patchsets O display from_utf8 branch ps w) _ (sym sent ∙ e) in
            let (known, keeps) = send_patchsets-IsKnown branch ps w mid first in
            let (all, keeps') = send_branches-IsSent branches mid w' rest in
            (
              (
                only_if_true through
                    (All-implies ps known (λ p h. keeps' p.time (file_revision_ids O p) h)),
                all,
              ),
              λ time ids h. keeps' time ids (keeps time ids h),
            )
        | inr passed ↦
            let skipped : send_branches O display from_utf8 filter ((branch, ps) ∷ branches) w
                ≡ send_branches O display from_utf8 filter branches w =
              rw (passed, send_branches) refl in
            let (all, keeps) = send_branches-IsSent branches w w' (sym skipped ∙ e) in
            ((only_if_false _ passed, all), keeps)
      ]
