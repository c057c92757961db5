-- ===== src/Discovery/Tree.antt =====
-- src/discovery.rs, `handle_tree`: the revisions of a file from its head on, each made from the one
-- before it by the script of its delta.
use git_cvs_fast_import.Prelude.{
  ℕ, zero, suc, List, [], ◌∷◌, Option, none, some, Bytes, Outcome, ok, err, panic,
}
use git_cvs_fast_import.Num.{Num}
use git_cvs_fast_import.Nom.{Nom}
use git_cvs_fast_import.CommaV
use git_cvs_fast_import.CommaV.{Delta, DeltaText}
use git_cvs_fast_import.Ed.Script
use git_cvs_fast_import.Ed.File
use git_cvs_fast_import.Patchset.{CommitHeap}
use git_cvs_fast_import.Patchset.Heap.{HashOrder}
use git_cvs_fast_import.Discovery.{Error, script, line_command, FileRevisionHandler, Place, Result}
use git_cvs_fast_import.Discovery.Revision.{handle_revision}

-- `apply_in_place`, and the file that it leaves.
abbrev pub applied : File.File × Outcome File.LineCommandError (Unit {0}) → Outcome Error File.File
applied (f, ok _) = ok f
applied (f, err e) = err (line_command e)
applied (f, panic) = panic

-- The commands of a script, if it has no error, applied to the file.
unfoldable pub patched :
    File.File
    → Option (Outcome Script.Error (List Script.Command))
    → Option (Outcome Error File.File)
unfolding File.apply_in_place
patched contents none = none
patched contents (some (ok commands)) = some (applied (File.apply_in_place contents commands))
patched contents (some (err e)) = some (err (script e))
patched contents (some panic) = some panic

module _ (nom : Nom) (from_utf8_lossy : Bytes → Bytes) where
  -- The contents at a revision, from those at the one before it. `none` says that the fuel of a
  -- reader ran out.
  unfoldable pub contents_at : Option File.File → DeltaText → Option (Outcome Error File.File)
  unfolding Script.into_command_list Script.parse File.new patched
  contents_at (some contents) text =
      patched contents (Script.into_command_list nom from_utf8_lossy (Script.parse text.text))
  contents_at none text = elim (File.new text.text) [ none ↦ none | some f ↦ some (ok f) ]

-- A result, or `none` if the fuel ran out.
abbrev pub Run : CommitHeap ℕ → Type 0
Run C = Option (Result C (Place C))

infixl 5 ◌then◌
abbrev pub ◌then◌ : {C : CommitHeap ℕ} → Run C → (Place C → Run C) → Run C
some (ok p) then next = next p
some (err e) then next = some (err e)
some panic then next = some panic
none then next = none

module _ (C : CommitHeap ℕ) where
  abbrev pub with_contents :
      Place C → Option (Outcome Error File.File) → (File.File → Run C) → Run C
  with_contents p none next = none
  with_contents p (some (ok file)) next = next file
  with_contents p (some (err e)) next = some (err (e, p))
  with_contents p (some panic) next = some panic

  abbrev pub with_mark : Result C (Option ℕ × Place C) → (Place C → Run C) → Run C
  with_mark (ok (mark, p)) next = next p
  with_mark (err e) next = some (err e)
  with_mark panic next = some panic

  -- `cv.revision(revision).unwrap()`
  abbrev pub with_revision : Option (Delta × DeltaText) → (Delta → DeltaText → Run C) → Run C
  with_revision none next = some panic
  with_revision (some (delta, text)) next = next delta text

  -- The loop over the branches of a revision, with what is done for each.
  unfoldable pub handle_branches : (Num → Place C → Run C) → List Num → Place C → Run C
  handle_branches f [] p = some (ok p)
  handle_branches f (revision ∷ branches) p = f revision p then handle_branches f branches

  -- The next round of the loop, if there is one.
  abbrev pub handle_next : (Num → Place C → Run C) → Option Num → Place C → Run C
  handle_next f none p = some (ok p)
  handle_next f (some next) p = f next p

  module _ (nom : Nom) (O : HashOrder) (from_utf8_lossy : Bytes → Bytes) (limit : ℕ)
      (h : FileRevisionHandler) (cv : CommaV.File) where
    -- The contents of a revision, sent with it; `f` is what is done then.
    unfoldable pub handle_at :
        (File.File → Place C → Run C) → Option File.File → Num → Delta → DeltaText → Place C → Run C
    unfolding contents_at handle_revision File.as_bytes
    handle_at f contents revision delta text p =
        with_contents p (contents_at nom from_utf8_lossy contents text) (λ file.
          with_mark
            (handle_revision C O from_utf8_lossy limit h (File.as_bytes file) revision delta text p)
            (f file))

    -- A call, or a round of the loop, takes one of the fuel.
    unfoldable pub handle_tree : ℕ → Option File.File → Num → Place C → Run C
    unfolding CommaV.revision handle_at handle_branches
    handle_tree zero contents revision p = none
    handle_tree (suc fuel) contents revision p =
        with_revision (CommaV.revision cv revision) (λ delta text.
          handle_at
            (λ file p'.
              handle_branches (handle_tree fuel (some file)) delta.branches p'
              then handle_next (handle_tree fuel (some file)) delta.next)
            contents revision delta text p)
