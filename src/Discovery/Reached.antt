-- ===== src/Discovery/Reached.antt =====
-- `handle_tree` of src/discovery.rs has handled every revision that the deltas lead to, if it succeeds.
use mathlib.Core.Path.{subst}
use mathlib.Core.List.{Memᴰ}
use mathlib.Core.List.Memᴰ
use git_cvs_fast_import.Prelude.{
  ◌⊎◌, ℕ, zero, suc, ◌<◌, List, [], ◌∷◌, Option, none, some, Bytes, Outcome, ok, err, panic, ◌≡◌,
  refl, sym, ap, ◌∙◌, inl, inr,
}
use git_cvs_fast_import.Num
use git_cvs_fast_import.Num.{Num}
use git_cvs_fast_import.Nom.{Nom}
use git_cvs_fast_import.CommaV
use git_cvs_fast_import.CommaV.{Delta, DeltaText}
use git_cvs_fast_import.Ed.File
use git_cvs_fast_import.Patchset.{CommitHeap}
use git_cvs_fast_import.Patchset.Heap.{HashOrder}
use git_cvs_fast_import.State.{FileRevision}
use git_cvs_fast_import.Discovery.{Error, FileRevisionHandler, Place, Result}
use git_cvs_fast_import.Discovery.Revision.{handle_revision}
use git_cvs_fast_import.Discovery.Seen.{IsKeyed, IsRecorded, Keeps, handle_revision-IsHandled}
use git_cvs_fast_import.Discovery.Ends.{some-injective, IsRanked, handle_tree-Ends}
use git_cvs_fast_import.Discovery.Tree.{
  contents_at, Run, ◌then◌, with_contents, with_mark, with_revision, handle_branches, handle_next,
  handle_at, handle_tree,
}

module _ (cv : CommaV.File) where
  -- `Reach q r`: the deltas lead from the revision `r` to `q`, by `next` and `branches`.
  pub data Reach (q : Num) : Num → Type 0 where
    here : {r : Num} → r ≡ q → Reach q r
    by_next :
        {r n : Num} {delta : Delta} {text : DeltaText}
        → CommaV.revision cv r ≡ some (delta, text)
        → delta.next ≡ some n
        → Reach q n
        → Reach q r
    by_branch :
        {r b : Num} {delta : Delta} {text : DeltaText}
        → CommaV.revision cv r ≡ some (delta, text)
        → Memᴰ b delta.branches
        → Reach q b
        → Reach q r

some-ok-injective {ℓ κ} :
    {E : Type ℓ} {A : Type κ} {a b : A}
    → Path (Option (Outcome E A)) (some (ok a)) (some (ok b))
    → a ≡ b
some-ok-injective e = cc

module _ (C : CommitHeap ℕ) (h : FileRevisionHandler) where
  -- The second place is keyed, has what the first one has, and has every revision of which `S` speaks.
  pub record Done (S : Num → Type 0) (p p' : Place C) : Type 0 where
    pub keyed : IsKeyed p'.observing.state
    pub keeps : Keeps p.observing.state p'.observing.state
    pub has :
        (q : Num)
        → S q
        → (r : FileRevision) × IsRecorded p'.observing.state h.real_path (Num.fmt q) r

  -- Two steps, of which the revisions are the first's and the second's.
  Done-two :
      {S T R : Num → Type 0} {p m p' : Place C}
      → Done S p m
      → Done T m p'
      → ((q : Num) → R q → S q ⊎ T q)
      → Done R p p'
  Done-two a b split = record {
    keyed = b.keyed;
    keeps = λ path revision r found. b.keeps path revision r (a.keeps path revision r found);
    has = λ q s. elim (split q s) [
      | inl first ↦ let (r, found) = a.has q first in (r, b.keeps h.real_path (Num.fmt q) r found)
      | inr second ↦ b.has q second
    ];
  }

  Done-nothing :
      {S : Num → Type 0} (p : Place C)
      → IsKeyed p.observing.state
      → ((q : Num) → ¬ S q)
      → Done S p p
  Done-nothing p v never = record {
    keyed = v;
    keeps = λ path revision r found. found;
    has = λ q s. absurd (never q s);
  }

  -- What holds of the place, if there is one.
  abbrev pub IfOk : (Place C → Type 0) → Result C (Place C) → Type 0
  IfOk P (ok p) = P p
  IfOk P (err e) = Unit
  IfOk P panic = Unit

  if_ok :
      {P : Place C → Type 0} (out : Result C (Place C))
      → ((p : Place C) → out ≡ ok p → P p)
      → IfOk P out
  if_ok (ok p) each = each p refl
  if_ok (err e) each = tt
  if_ok panic each = tt

  -- Whenever the function succeeds, it is done with the revisions of `S` at its argument.
  abbrev Does : (Num → Num → Type 0) → (Num → Place C → Run C) → Type 0
  Does S f =
      (r : Num) (p p' : Place C)
      → IsKeyed p.observing.state
      → f r p ≡ some (ok p')
      → Done (λ q. S q r) p p'

  then-some :
      (run : Run C) (next : Place C → Run C) {p' : Place C}
      → (run then next) ≡ some (ok p')
      → (p : Place C) × (run ≡ some (ok p)) × (next p ≡ some (ok p'))
  then-some none next e = absurd cc
  then-some (some (ok p)) next e = (p, refl, e)
  then-some (some (err x)) next e = absurd cc
  then-some (some panic) next e = absurd cc

  module _ (S : Num → Num → Type 0) (f : Num → Place C → Run C) (does : Does S f) where
    handle_branches-Done :
        (bs : List Num) (p p' : Place C)
        → IsKeyed p.observing.state
        → handle_branches C f bs p ≡ some (ok p')
        → Done (λ q. (b : Num) × Memᴰ b bs × S q b) p p'
    unfolding handle_branches
    handle_branches-Done [] p p' v e =
        subst (Done (λ q. (b : Num) × Memᴰ b [] × S q b) p) (some-ok-injective e)
          (Done-nothing p v (λ q (b, m, s). Memᴰ.not-nil m))
    handle_branches-Done (b ∷ bs) p p' v e =
        let (mid, first, rest) = then-some (f b p) (handle_branches C f bs) e in
        let a = does b p mid v first in
        Done-two a (handle_branches-Done bs mid p' a.keyed rest) (λ q (c, m, s).
          elim (Memᴰ.cases_cons m) [
            | inl same ↦ inl (subst (S q) same s)
            | inr later ↦ inr (c, later, s)
          ])

    handle_next-Done :
        (next : Option Num) (p p' : Place C)
        → IsKeyed p.observing.state
        → handle_next C f next p ≡ some (ok p')
        → Done (λ q. (n : Num) × (next ≡ some n) × S q n) p p'
    handle_next-Done none p p' v e =
        subst (Done (λ q. (n : Num) × (none ≡ some n) × S q n) p) (some-ok-injective e)
          (Done-nothing p v (λ q (n, same, s). cc))
    handle_next-Done (some n) p p' v e =
        let a = does n p p' v e in
        Done-two a (Done-nothing {S = λ q. ⊥} p' a.keyed (λ q (bot : ⊥). bot))
          (λ q (m, same, s). inl (subst (S q) (let back : m ≡ n = cc in back) s))

  with_mark-some :
      (marked : Result C (Option ℕ × Place C)) (next : Place C → Run C) {p' : Place C}
      → with_mark C marked next ≡ some (ok p')
      → (out : Option ℕ × Place C) × (marked ≡ ok out) × (next out.1 ≡ some (ok p'))
  with_mark-some (ok out) next e = (out, refl, e)
  with_mark-some (err x) next e = absurd cc
  with_mark-some panic next e = absurd cc

  with_contents-some :
      (p : Place C) (contents : Option (Outcome Error File.File)) (next : File.File → Run C)
      {p' : Place C}
      → with_contents C p contents next ≡ some (ok p')
      → (f : File.File) × (next f ≡ some (ok p'))
  with_contents-some p none next e = absurd cc
  with_contents-some p (some (ok f)) next e = (f, e)
  with_contents-some p (some (err x)) next e = absurd cc
  with_contents-some p (some panic) next e = absurd cc

  with_revision-some :
      (found : Option (Delta × DeltaText)) (next : Delta → DeltaText → Run C) {p' : Place C}
      → with_revision C found next ≡ some (ok p')
      → (delta : Delta) × (text : DeltaText) × (found ≡ some (delta, text))
        × (next delta text ≡ some (ok p'))
  with_revision-some none next e = absurd cc
  with_revision-some (some (delta, text)) next e = (delta, text, refl, e)

  module _ (nom : Nom) (O : HashOrder) (from_utf8_lossy : Bytes → Bytes) (limit : ℕ)
      (cv : CommaV.File) where
    -- Where a revision is reached from another with this delta: at once, through a branch, or next.
    Reach-split :
        (q r : Num) (delta : Delta) (text : DeltaText)
        → CommaV.revision cv r ≡ some (delta, text)
        → Reach cv q r
        → (r ≡ q)
          ⊎ (((b : Num) × Memᴰ b delta.branches × Reach cv q b)
              ⊎ ((n : Num) × (delta.next ≡ some n) × Reach cv q n))
    Reach-split q r delta text found (here same) = inl same
    Reach-split q r delta text found (by_next {delta = delta'} found' e more) =
        let same : delta' ≡ delta =
          ap (λ (x : Delta × DeltaText). x.0) (some-injective (sym found' ∙ found)) in
        inr (inr (_, ap (λ (d : Delta). d.next) (sym same) ∙ e, more))
    Reach-split q r delta text found (by_branch {b = b} {delta = delta'} found' m more) =
        let same : delta' ≡ delta =
          ap (λ (x : Delta × DeltaText). x.0) (some-injective (sym found' ∙ found)) in
        inr (inl (b, subst (λ (d : Delta). Memᴰ b d.branches) same m, more))

    revision-Done :
        (content : Bytes) (r : Num) (delta : Delta) (text : DeltaText) (p : Place C)
        (out : Option ℕ × Place C)
        → IsKeyed p.observing.state
        → handle_revision C O from_utf8_lossy limit h content r delta text p ≡ ok out
        → Done (λ q. r ≡ q) p out.1
    revision-Done content r delta text p out v marked =
        let (keyed, (recorded, found, _), keeps) =
          handle_revision-IsHandled C O from_utf8_lossy limit h content r delta text p out v
            marked in
        record {
          keyed = keyed;
          keeps = keeps;
          has = λ q same.
              subst
                (λ (n : Num).
                  (x : FileRevision) × IsRecorded out.1.observing.state h.real_path (Num.fmt n) x)
                same (recorded, found);
        }

    handle_tree-Done :
        (fuel : ℕ) (contents : Option File.File)
        → Does (Reach cv) (handle_tree C nom O from_utf8_lossy limit h cv fuel contents)
    unfolding handle_tree handle_at
    handle_tree-Done zero contents r p p' v e = absurd cc
    handle_tree-Done (suc fuel) contents r p p' v e =
        let (delta, text, found, e1) = with_revision-some (CommaV.revision cv r) _ e in
        let (file, e2) =
          with_contents-some p (contents_at nom from_utf8_lossy contents text) _ e1 in
        let (out, marked, e3) =
          with_mark-some
            (handle_revision C O from_utf8_lossy limit h (File.as_bytes file) r delta text p) _
            e2 in
        let go = handle_tree C nom O from_utf8_lossy limit h cv fuel (some file) in
        let (mid, e4, e5) =
          then-some (handle_branches C go delta.branches out.1) (handle_next C go delta.next) e3 in
        let first = revision-Done (File.as_bytes file) r delta text p out v marked in
        let branches =
          handle_branches-Done (Reach cv) go (handle_tree-Done fuel (some file)) delta.branches
            out.1 mid first.keyed e4 in
        let next =
          handle_next-Done (Reach cv) go (handle_tree-Done fuel (some file)) delta.next mid p'
            branches.keyed e5 in
        Done-two first (Done-two branches next (λ q s. s))
          (λ q s. Reach-split q r delta text found s)

    -- For a file whose deltas have a rank that falls wherever one leads, and more fuel than the rank
    -- of the revision: `handle_tree` comes to an end, and if it succeeds, every revision that the
    -- deltas lead to from this one is in the state, which has lost nothing and keeps the agreement of
    -- its indexes with its list of revisions.
    pub handle_tree-Reach :
        (rank : Num → ℕ) (fuel : ℕ) (contents : Option File.File) (r : Num) (p : Place C)
        → IsRanked cv rank
        → rank r < fuel
        → IsKeyed p.observing.state
        → (out : Result C (Place C)) × (handle_tree C nom O from_utf8_lossy limit h cv fuel contents
              r p
            ≡ some out)
          × IfOk (Done (λ q. Reach cv q r) p) out
    handle_tree-Reach rank fuel contents r p ranked low v =
        let (out, e) =
          handle_tree-Ends C nom O from_utf8_lossy limit h cv rank ranked fuel contents r p low in
        (out, e, if_ok out (λ p' done. handle_tree-Done fuel contents r p p' v (e ∙ ap some done)))
