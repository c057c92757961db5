-- ===== src/Discovery.antt =====
-- src/discovery.rs: the tasks that parse RCS files, send the contents of their revisions to git and
-- tell the observer of them. This file has what its steps share; `Munge` has the paths of the files,
-- `Revision` and `Tree` the revisions of one file, and `Worker` a file as a whole and the task. The
-- tasks are taken one after another: the messages of one are not interleaved with those of others.
pub mod Munge
pub mod Revision
pub mod Seen
pub mod Tree
pub mod Ends
pub mod Reached
pub mod Worker
pub mod Ignored
pub mod Fresh
pub mod Tests
use git_cvs_fast_import.Prelude.{ℕ, List, Bytes, Outcome}
use git_cvs_fast_import.Prelude.Assoc.{Assoc}
use git_cvs_fast_import.Paths.{FilePath}
use git_cvs_fast_import.Num.{Num}
use git_cvs_fast_import.Ed.Script
use git_cvs_fast_import.Ed.File
use git_cvs_fast_import.Patchset.{CommitHeap}
use git_cvs_fast_import.Observer.{Observing}
use git_cvs_fast_import.FastImport
use git_cvs_fast_import.FastImport.{Writer}

-- `anyhow::Error`, by its sources.
pub data Error : Type 0 where
  io : Error
  parse : (location : Bytes) → Error
  missing_head : FilePath → Error
  script : Script.Error → Error
  line_command : File.LineCommandError → Error
  fast_import : FastImport.Error → Error

-- `FileRevisionHandler`, without the worker.
pub record FileRevisionHandler : Type 0 where
  pub branches : Assoc Bytes Num
  pub revision_tags : Assoc Num (List Bytes)
  pub real_path : FilePath

module _ (C : CommitHeap ℕ) where
  -- What the worker shares with the others: the observer with its state, and the output.
  pub record Place : Type 0 where
    pub observing : Observing C
    pub output : Writer

  -- An error leaves what was done before it.
  abbrev pub Result : Type 0 → Type 0
  Result A = Outcome (Error × Place) A
