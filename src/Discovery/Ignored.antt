-- ===== src/Discovery/Ignored.antt =====
-- src/discovery.rs, the loop of a worker where errors of files are ignored: it handles one file after the
-- other, each from the place that the one before it has left.
use mathlib.Core.Path.{subst}
use git_cvs_fast_import.Prelude.{
  ℕ, not, ◌&&◌, List, [], ◌∷◌, none, some, Option, if◌then◌else◌, Bytes, Bool, true, false, ok, err,
  panic, ◌≡◌, ◌≢◌, refl, sym, ap, ◌∙◌, All, Option-cases, inl, inr,
}
use git_cvs_fast_import.Paths.{FilePath}
use git_cvs_fast_import.Nom.{Nom}
use git_cvs_fast_import.Nom.Complete.{Combinators}
use git_cvs_fast_import.CommaV.Scalar.{Calendar}
use git_cvs_fast_import.Patchset.{CommitHeap}
use git_cvs_fast_import.Patchset.Heap.{HashOrder}
use git_cvs_fast_import.Discovery.{Place, Result}
use git_cvs_fast_import.Discovery.Munge.{strip_comma_v}
use git_cvs_fast_import.Discovery.Tree.{Run}
use git_cvs_fast_import.Discovery.Worker.{Worker, System, handle_path, after, work}

-- The run comes to an end, with a result or an error, and without a panic.
abbrev pub IsSettled : {C : CommitHeap ℕ} → Run C → Type 0
IsSettled {C} run = (out : Result C (Place C)) × (run ≡ some out) × (out ≢ panic)

-- The place that a run from `p` leaves, with a result or an error.
abbrev pub left_by : {C : CommitHeap ℕ} → Place C → Run C → Place C
left_by p (some (ok p')) = p'
left_by p (some (err (e, p'))) = p'
left_by p (some panic) = p
left_by p none = p

-- The system knows whether the path is a directory.
abbrev pub IsKnown : System → FilePath → Type 0
IsKnown system path = (is : Bool) × (system.is_dir path ≡ some is)

abbrev is_directory : Option Bool → Bool
is_directory (some is) = is
is_directory none = false

abbrev is_some_name : Option Bytes → Bool
is_some_name (some name) = true
is_some_name none = false

-- The path is no directory, and has `,v` at its end.
unfoldable pub is_rcs_file : System → FilePath → Bool
unfolding strip_comma_v
is_rcs_file system path =
    not (is_directory (system.is_dir path)) && is_some_name (strip_comma_v (system.as_os_str path))

-- The RCS files among the paths.
unfoldable pub rcs_files : System → List FilePath → List FilePath
unfolding is_rcs_file
rcs_files system [] = []
rcs_files system (path ∷ paths) =
    let rest = rcs_files system paths in if is_rcs_file system path then path ∷ rest else rest

rcs_files_skipped :
    (system : System) (path : FilePath) (paths : List FilePath)
    → is_rcs_file system path ≡ false
    → rcs_files system (path ∷ paths) ≡ rcs_files system paths
unfolding rcs_files
rcs_files_skipped system path paths e = rw e refl

rcs_files_taken :
    (system : System) (path : FilePath) (paths : List FilePath)
    → is_rcs_file system path ≡ true
    → rcs_files system (path ∷ paths) ≡ path ∷ rcs_files system paths
unfolding rcs_files
rcs_files_taken system path paths e = rw e refl

module _ (C : CommitHeap ℕ) (nom : Nom) (more : Combinators) (calendar : Calendar) (O : HashOrder)
    (from_utf8_lossy : Bytes → Bytes) (system : System) (limit : ℕ) (worker : Worker) where
  -- Each file settles from the place that the files before it have left.
  unfoldable pub AllSettle : ℕ → List FilePath → Place C → Type 0
  AllSettle fuel [] p = Unit
  AllSettle fuel (path ∷ paths) p =
      let run = handle_path C nom more calendar O from_utf8_lossy system limit worker fuel path p in
      IsSettled run × AllSettle fuel paths (left_by p run)

  -- The place after all the files.
  unfoldable pub left_after : ℕ → List FilePath → Place C → Place C
  left_after fuel [] p = p
  left_after fuel (path ∷ paths) p = left_after fuel paths (
      left_by p (handle_path C nom more calendar O from_utf8_lossy system limit worker fuel path p))

  after-left_by :
      (run : Run C) (next : Place C → Run C) (p : Place C)
      → worker.ignore_errors ≡ true
      → IsSettled run
      → after C nom more calendar O from_utf8_lossy system limit worker run next
        ≡ next (left_by p run)
  after-left_by none next p ignored (out, e, sound) = absurd (cc e)
  after-left_by (some panic) next p ignored (out, e, sound) = absurd (sound (cc e))
  after-left_by (some (ok p')) next p ignored settled = refl
  after-left_by (some (err (e, p'))) next p ignored settled = rw ignored refl

  -- With `ignore_errors`, on paths of which the system knows whether they are directories: if on each of
  -- the RCS files among them, from the place that the files before it have left, `handle_path` ends
  -- without a panic, in a result or an error, then `work` succeeds, and its place is the one that the RCS
  -- files leave one after another, those with an error too.
  pub work-left_after :
      (fuel : ℕ) (paths : List FilePath) (p : Place C)
      → worker.ignore_errors ≡ true
      → All (IsKnown system) paths
      → AllSettle fuel (rcs_files system paths) p
      → work C nom more calendar O from_utf8_lossy system limit worker fuel paths p
        ≡ some (ok (left_after fuel (rcs_files system paths) p))
  unfolding work is_rcs_file AllSettle left_after
  work-left_after fuel [] p ignored known settles = unfold rcs_files in refl
  work-left_after fuel (path ∷ paths) p ignored ((true, is), known) settles =
      let skipped : rcs_files system (path ∷ paths) ≡ rcs_files system paths =
        rcs_files_skipped system path paths (rw is refl) in
      rw (is, work)
        (work-left_after fuel paths p ignored known
            (subst (λ fs. AllSettle fuel fs p) skipped settles)
          ∙ ap (λ fs. some (ok (left_after fuel fs p))) (sym skipped))
  work-left_after fuel (path ∷ paths) p ignored ((false, is), known) settles =
      elim (Option-cases (strip_comma_v (system.as_os_str path))) [
        | inl other ↦
            let skipped : rcs_files system (path ∷ paths) ≡ rcs_files system paths =
              rcs_files_skipped system path paths (rw (is, other) refl) in
            rw (is, other, work)
              (work-left_after fuel paths p ignored known
                  (subst (λ fs. AllSettle fuel fs p) skipped settles)
                ∙ ap (λ fs. some (ok (left_after fuel fs p))) (sym skipped))
        | inr (name, e) ↦
            let taken : rcs_files system (path ∷ paths) ≡ path ∷ rcs_files system paths =
              rcs_files_taken system path paths (rw (is, e) refl) in
            let (settled, more_settle) = subst (λ fs. AllSettle fuel fs p) taken settles in
            rw (is, e, work)
              (after-left_by _
                  (work C nom more calendar O from_utf8_lossy system limit worker fuel paths) p
                  ignored settled
                ∙ work-left_after fuel paths _ ignored known more_settle
                ∙ ap (λ fs. some (ok (left_after fuel fs p))) (sym taken))
      ]
