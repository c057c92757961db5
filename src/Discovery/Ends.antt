-- ===== src/Discovery/Ends.antt =====
-- `handle_tree` of src/discovery.rs comes to an end on a file whose deltas lead nowhere twice.
use mathlib.Core.Path.{subst}
use git_cvs_fast_import.Prelude.{
  ℕ, zero, suc, ◌<◌, List, [], ◌∷◌, Option, none, some, Bytes, Outcome, ok, err, panic, ◌≡◌, refl,
  sym, ap, ◌∙◌, arith, All, All-implies, Option-cases, inl, inr,
}
use git_cvs_fast_import.Prelude.Assoc.{lookup, lookup-All}
use git_cvs_fast_import.Num.{Num, num_eq}
use git_cvs_fast_import.Nom.{Nom}
use git_cvs_fast_import.CommaV
use git_cvs_fast_import.CommaV.{Delta, DeltaText}
use git_cvs_fast_import.Ed.Script
use git_cvs_fast_import.Ed.File
use git_cvs_fast_import.Ed.Bytes.{as_bytes-new}
use git_cvs_fast_import.Ed.RoundTrip.{into_command_list_total}
use git_cvs_fast_import.Patchset.{CommitHeap}
use git_cvs_fast_import.Patchset.Heap.{HashOrder}
use git_cvs_fast_import.Discovery.{Error, FileRevisionHandler, Place, Result}
use git_cvs_fast_import.Discovery.Tree.{
  patched, contents_at, Run, ◌then◌, with_contents, with_mark, with_revision, handle_branches,
  handle_next, handle_at, handle_tree,
}

pub some-injective {ℓ} : {A : Type ℓ} {a b : A} → some a ≡ some b → a ≡ b
some-injective e = cc

-- A rank below `k`, if there is a revision.
abbrev pub Below : (Num → ℕ) → ℕ → Option Num → Type 0
Below rank k none = Unit
Below rank k (some n) = rank n < k

-- The delta of `r` leads to revisions of a lower rank.
abbrev pub Falls : (Num → ℕ) → Num → Delta → Type 0
Falls rank r delta = Below rank (rank r) delta.next × All (λ b. rank b < rank r) delta.branches

module _ (cv : CommaV.File) where
  -- The rank falls wherever a delta leads.
  abbrev pub IsRanked : (Num → ℕ) → Type 0
  IsRanked rank =
      (r : Num) (delta : Delta) (text : DeltaText)
      → CommaV.revision cv r ≡ some (delta, text)
      → Falls rank r delta

  revision-delta :
      (r : Num) (delta : Delta) (text : DeltaText)
      → CommaV.revision cv r ≡ some (delta, text)
      → lookup r cv.delta ≡ some delta
  unfolding CommaV.revision
  revision-delta r delta text h = elim (Option-cases (lookup r cv.delta)) [
    | inl e ↦
        absurd (let missing : CommaV.revision cv r ≡ none = rw (e, CommaV.revision) refl in cc)
    | inr (d, e) ↦ (elim (Option-cases (lookup r cv.delta_text)) [
      | inl e' ↦
          absurd
            (let missing : CommaV.revision cv r ≡ none = rw (e, CommaV.revision) (rw e' refl) in cc)
      | inr (t, e') ↦
          let found : CommaV.revision cv r ≡ some (d, t) = rw (e, CommaV.revision) (rw e' refl) in
          let same : d ≡ delta =
            ap (λ (x : Delta × DeltaText). x.0) (some-injective (sym found ∙ h)) in
          e ∙ ap some same
    ])
  ]

  -- It is enough that every delta in the file leads to revisions of a lower rank.
  pub All-IsRanked :
      (rank : Num → ℕ) → All (λ entry. Falls rank entry.0 entry.1) cv.delta → IsRanked rank
  All-IsRanked rank each r delta text found =
      lookup-All (Falls rank) r delta cv.delta each (revision-delta r delta text found)

-- A run has a result.
abbrev pub Ends : (C : CommitHeap ℕ) → Run C → Type 0
Ends C run = (out : Result C (Place C)) × (run ≡ some out)

patched-ends :
    (contents : File.File) (commands : Option (Outcome Script.Error (List Script.Command)))
    → (out : Outcome Script.Error (List Script.Command)) × (commands ≡ some out)
    → (out : Outcome Error File.File) × (patched contents commands ≡ some out)
unfolding patched
patched-ends contents none (out, e) = absurd cc
patched-ends contents (some (ok commands)) ends = (_, refl)
patched-ends contents (some (err e)) ends = (_, refl)
patched-ends contents (some panic) ends = (_, refl)

contents_at-ends :
    (nom : Nom) (from_utf8_lossy : Bytes → Bytes) (contents : Option File.File) (text : DeltaText)
    → (out : Outcome Error File.File) × (contents_at nom from_utf8_lossy contents text ≡ some out)
unfolding contents_at
contents_at-ends nom from_utf8_lossy none text =
    let (f, e, _) = as_bytes-new text.text in (ok f, rw (e, contents_at) refl)
contents_at-ends nom from_utf8_lossy (some contents) text =
    patched-ends contents _ (into_command_list_total nom from_utf8_lossy (Script.parse text.text))

module _ (C : CommitHeap ℕ) where
  then-Ends :
      (run : Run C) (next : Place C → Run C)
      → Ends C run
      → ((p : Place C) → Ends C (next p))
      → Ends C (run then next)
  then-Ends none next (out, e) each = absurd cc
  then-Ends (some (ok p)) next ends each = each p
  then-Ends (some (err e)) next ends each = (err e, refl)
  then-Ends (some panic) next ends each = (panic, refl)

  handle_branches-Ends :
      (f : Num → Place C → Run C) (bs : List Num) (p : Place C)
      → All (λ b. (p' : Place C) → Ends C (f b p')) bs
      → Ends C (handle_branches C f bs p)
  unfolding handle_branches
  handle_branches-Ends f [] p each = (ok p, refl)
  handle_branches-Ends f (b ∷ bs) p (first, more) =
      then-Ends (f b p) (handle_branches C f bs) (first p) (λ p'. handle_branches-Ends f bs p' more)

  handle_next-Ends :
      (f : Num → Place C → Run C) (next : Option Num) (p : Place C)
      → ((n : Num) → next ≡ some n → (p' : Place C) → Ends C (f n p'))
      → Ends C (handle_next C f next p)
  handle_next-Ends f none p each = (ok p, refl)
  handle_next-Ends f (some n) p each = each n refl p

  with_mark-Ends :
      (marked : Result C (Option ℕ × Place C)) (next : Place C → Run C)
      → ((p : Place C) → Ends C (next p))
      → Ends C (with_mark C marked next)
  with_mark-Ends (ok (mark, p)) next each = each p
  with_mark-Ends (err e) next each = (err e, refl)
  with_mark-Ends panic next each = (panic, refl)

  with_contents-Ends :
      (p : Place C) (contents : Option (Outcome Error File.File)) (next : File.File → Run C)
      → (out : Outcome Error File.File) × (contents ≡ some out)
      → ((f : File.File) → Ends C (next f))
      → Ends C (with_contents C p contents next)
  with_contents-Ends p none next (out, e) each = absurd cc
  with_contents-Ends p (some (ok f)) next ends each = each f
  with_contents-Ends p (some (err e)) next ends each = (err (e, p), refl)
  with_contents-Ends p (some panic) next ends each = (panic, refl)

  with_revision-Ends :
      (found : Option (Delta × DeltaText)) (next : Delta → DeltaText → Run C)
      → ((delta : Delta) (text : DeltaText) → found ≡ some (delta, text) → Ends C (next delta text))
      → Ends C (with_revision C found next)
  with_revision-Ends none next each = (panic, refl)
  with_revision-Ends (some (delta, text)) next each = each delta text refl

  module _ (nom : Nom) (O : HashOrder) (from_utf8_lossy : Bytes → Bytes) (limit : ℕ)
      (h : FileRevisionHandler) (cv : CommaV.File) where
    pub handle_tree-Ends :
        (rank : Num → ℕ)
        → IsRanked cv rank
        → (fuel : ℕ) (contents : Option File.File) (revision : Num) (p : Place C)
        → rank revision < fuel
        → Ends C (handle_tree C nom O from_utf8_lossy limit h cv fuel contents revision p)
    unfolding handle_tree handle_at
    handle_tree-Ends rank ranked zero contents revision p low = absurd (omega arith)
    handle_tree-Ends rank ranked (suc fuel) contents revision p low =
        with_revision-Ends (CommaV.revision cv revision) _ (λ delta text found.
          let (falls, branches) = ranked revision delta text found in
          with_contents-Ends p (contents_at nom from_utf8_lossy contents text) _
            (contents_at-ends nom from_utf8_lossy contents text)
            (λ file. with_mark-Ends _ _ (λ p'.
              then-Ends _ _
                (handle_branches-Ends
                  (handle_tree C nom O from_utf8_lossy limit h cv fuel (some file)) delta.branches
                  p'
                  (All-implies delta.branches branches (λ b less p3.
                    handle_tree-Ends rank ranked fuel (some file) b p3 (omega arith))))
                (λ p''.
                  handle_next-Ends (handle_tree C nom O from_utf8_lossy limit h cv fuel (some file))
                    delta.next p''
                    (λ n e p3.
                      handle_tree-Ends rank ranked fuel (some file) n p3
                        (let less = subst (Below rank (rank revision)) e falls in omega arith))))))
