-- ===== src/Main.antt =====
-- src/main.rs: `main` after the command line and the logging are set up. The walk over a directory, the
-- time, the reading of mark files and what `git fast-import` writes to one are parameters. One worker
-- takes the paths, and all are sent before it starts.
pub mod Sent
pub mod Tests
use git_cvs_fast_import.Prelude.{
  ℕ, List, [], ◌∷◌, ◌++◌, Option, none, some, Bytes, Bool, true, false, if◌then◌else◌, Outcome, ok,
  err, panic, ◌>>=◌, map,
}
use git_cvs_fast_import.Prelude.Equality.{nat_eq, list_eq}
use git_cvs_fast_import.Prelude.Assoc.{Assoc}
use git_cvs_fast_import.Paths.{FilePath, push}
use git_cvs_fast_import.Nom.{Nom}
use git_cvs_fast_import.Nom.Complete.{Combinators}
use git_cvs_fast_import.CommaV.Scalar.{Calendar}
use git_cvs_fast_import.Patchset.{CommitHeap, PatchSetHeap, PatchSet}
use git_cvs_fast_import.Patchset.Heap.{HashOrder}
use git_cvs_fast_import.State.Manager
use git_cvs_fast_import.State.Manager.{Manager}
use git_cvs_fast_import.Observer
use git_cvs_fast_import.Observer.{Observing}
use git_cvs_fast_import.FastImport
use git_cvs_fast_import.FastImport.Identity
use git_cvs_fast_import.FastImport.MarkFile.{get_last_mark}
use git_cvs_fast_import.Import
use git_cvs_fast_import.Import.{World, BranchFilter, new_filter, filter_contains, map_err}
use git_cvs_fast_import.Import.Patchsets.{send_patchsets}
use git_cvs_fast_import.Import.Tags.{send_tags}
use git_cvs_fast_import.Discovery.{Place, Result}
use git_cvs_fast_import.Discovery.Tree.{Run}
use git_cvs_fast_import.Discovery.Worker.{Worker, System, work}

-- The options of `Opt` that the steps use.
pub record Opt : Type 0 where
  pub branch : List Bytes
  pub cvsroot : FilePath
  pub delta : ℕ
  pub head_branch : Bytes
  pub ignore_file_errors : Bool
  pub tag_identity_email : Bytes
  pub tag_identity_name : Option Bytes
  pub directories : List FilePath

-- `anyhow::Error`, by its sources.
pub data Error : Type 0 where
  io : Error
  import : Import.Error → Error

-- What `main` asks of the system: the entries of `WalkDir`, each a path or an error, the time, the lines
-- of a file from the last on, and the marks that git has written once the stream is at its end.
pub record Environment : Type 0 where
  pub system : System
  pub walk_dir : FilePath → List (Option FilePath)
  pub now : ℕ
  pub rev_lines : Bytes → Option (List Bytes)
  pub mark_file : Bytes
  pub exported_marks : Bytes → Option Bytes

-- The directories from which the walks start.
unfoldable pub start_paths : Opt → List FilePath
unfolding push
start_paths opt = elim opt.directories [
  | [] ↦ opt.cvsroot ∷ []
  | d ∷ ds ↦ map (λ dir. push (push [] opt.cvsroot) dir) (d ∷ ds)
]

-- `discovery.discover(entry?.path())` for each entry
unfoldable pub send_entries : List (Option FilePath) → Outcome Error (List FilePath)
send_entries [] = ok []
send_entries (none ∷ entries) = err io
send_entries (some path ∷ entries) = send_entries entries >>= λ paths. ok (path ∷ paths)

unfoldable pub walk_all :
    (FilePath → List (Option FilePath)) → List FilePath → Outcome Error (List FilePath)
unfolding send_entries
walk_all walk_dir [] = ok []
walk_all walk_dir (path ∷ paths) = send_entries (walk_dir path) >>= λ entries.
    walk_all walk_dir paths >>= λ rest. ok (entries ++ rest)

-- The worker's task is not awaited, so that its error is lost, and so is a panic, whose place the model does
-- not have: `none` says that it does not follow the run from there.
abbrev pub detached : {C : CommitHeap ℕ} → Run C → Option (Outcome Error (Place C))
detached none = none
detached (some (ok p)) = some (ok p)
detached (some (err (e, p))) = some (ok p)
detached (some panic) = none

-- Three stages of `main`, with `none` where the discovery has no place.
abbrev pub and_then :
    {A B : Type 0} → Option (Outcome Error A) → (A → Outcome Error B) → Option (Outcome Error B)
and_then none next = none
and_then (some out) next = some (out >>= next)

module _ (O : HashOrder) (display : FilePath → Bytes) (from_utf8 : Bytes → Option Bytes) where
  -- The loop over the branches of the result that the filter lets through.
  unfoldable pub send_branches :
      BranchFilter → Assoc Bytes (List (PatchSet ℕ)) → World → Outcome Import.Error World
  unfolding filter_contains send_patchsets
  send_branches filter [] w = ok w
  send_branches filter ((branch, patchsets) ∷ branches) w =
      let rest = send_branches filter branches in
      if filter_contains filter branch
      then (send_patchsets O display from_utf8 branch patchsets w >>= rest)
      else rest w

module _ (C : CommitHeap ℕ) (P : PatchSetHeap ℕ) (O : HashOrder) (nom : Nom) (more : Combinators)
    (calendar : Calendar) (display : FilePath → Bytes) (from_utf8 : Bytes → Option Bytes)
    (from_utf8_lossy : Bytes → Bytes) (opt : Opt) (environment : Environment) where
  abbrev pub worker_of : Worker
  worker_of = record {
    prefix = opt.cvsroot;
    head_branch = opt.head_branch;
    ignore_errors = opt.ignore_file_errors;
  }

  unfoldable pub discover_files : ℕ → Place C → Option (Outcome Error (Place C))
  unfolding walk_all start_paths work
  discover_files fuel p = elim (walk_all environment.walk_dir (start_paths opt)) [
    | err e ↦ some (err e)
    | panic ↦ some panic
    | ok paths ↦ detached (
        work C nom more calendar O from_utf8_lossy environment.system opt.delta worker_of fuel paths
          p)
  ]

  -- From the collector to the tags: what is sent, and the state.
  unfoldable pub send_observed : Place C → Outcome Error World
  unfolding Observer.join send_branches new_filter Identity.new send_tags
  send_observed p = Observer.join C P O p.observing.detectors >>= λ branches.
      map_err Error.import (
        send_branches O display from_utf8 (new_filter opt.branch)
          (O.order (Bytes × List (PatchSet ℕ)) branches)
          (record { state = p.observing.state; output = p.output }))
      >>= λ w.
          map_err (λ e. Error.import (Import.Error.time_error e))
            (Identity.new opt.tag_identity_name opt.tag_identity_email environment.now)
          >>= λ identity. map_err Error.import (send_tags from_utf8_lossy display identity w)

  -- `save_marks_from_file`, once the stream is closed
  unfoldable pub save_marks : World → Outcome Error Manager
  unfolding FastImport.close Manager.set_raw_marks
  save_marks w = elim (environment.exported_marks (FastImport.close w.output)) [
    | none ↦ err io
    | some marks ↦ ok (Manager.set_raw_marks marks w.state)
  ]

  -- `main`, from the state that is loaded to the one that is stored; `none` says that the model
  -- does not follow the run: the fuel for the revisions of a file ran out, or the worker's task panicked.
  unfoldable pub main : ℕ → Manager → Option (Outcome Error Manager)
  unfolding FastImport.new get_last_mark Manager.get_raw_marks discover_files send_observed
      save_marks
  main fuel state =
      elim (map_err (λ e. Error.import (Import.Error.fast_import e))
        (FastImport.new [] environment.mark_file
          (some (get_last_mark nom more environment.rev_lines (Manager.get_raw_marks state))))) [
            | err e ↦ some (err e)
            | panic ↦ some panic
            | ok output ↦
                and_then
                  (discover_files fuel
                    (record { observing = Observer.start C state; output = output }))
                  (λ p. send_observed p >>= save_marks)
          ]
