-- ===== src/Observer.antt =====
-- src/observer.rs: the observer of file revisions. The worker's messages are handled in the order in
-- which they are sent, so that each is here a step on the state manager and on the detectors of the
-- branches. A channel or task that fails is not modelled.
pub mod Branches
pub mod Tests
use git_cvs_fast_import.Prelude.{
  ℕ, List, [], ◌∷◌, ◌++◌, Option, none, some, Bytes, Outcome, ok, err, panic, ◌>>=◌,
}
use git_cvs_fast_import.Prelude.Equality.{nat_eq, list_eq}
use git_cvs_fast_import.Prelude.Assoc.{Assoc, upsert}
use git_cvs_fast_import.Paths.{FilePath}
use git_cvs_fast_import.Num
use git_cvs_fast_import.Num.{Num}
use git_cvs_fast_import.CommaV.{Delta, DeltaText}
use git_cvs_fast_import.Patchset
use git_cvs_fast_import.Patchset.{
  CommitHeap, PatchSetHeap, PatchSet, Detector, into_patchset_iter, add_file_commit,
}
use git_cvs_fast_import.Patchset.Heap.{HashOrder}
use git_cvs_fast_import.State.Manager
use git_cvs_fast_import.State.Manager.{Manager}

-- `FileRevision`, which a `Message` carries; the sender in it is the step's result.
pub record FileRevision : Type 0 where
  pub path : FilePath
  pub revision : Bytes
  pub mark : Option ℕ
  pub branches : List Bytes
  pub author : Bytes
  pub message : Bytes
  pub time : ℕ

-- `Observer::file_revision`, with the revision that it sends.
unfoldable pub message_for :
    (Bytes → Bytes) → FilePath → Num → List Bytes → Option ℕ → Delta → DeltaText → FileRevision
unfolding Num.fmt
message_for from_utf8_lossy path revision branches mark delta text = record {
  path = path;
  revision = Num.fmt revision;
  mark = mark;
  branches = branches;
  author = from_utf8_lossy delta.author;
  message = from_utf8_lossy text.log;
  time = delta.date;
}

module _ (C : CommitHeap ℕ) where
  -- `BranchDetectorHashMap`
  abbrev pub Detectors : Type 0
  Detectors = Assoc Bytes (Detector C)

  -- The state manager and the worker's `detectors`.
  pub record Observing : Type 0 where
    pub state : Manager
    pub detectors : Detectors

  -- The loop over the revision's branches.
  unfoldable pub add_to_branches : ℕ → ℕ → FileRevision → List Bytes → Detectors → Detectors
  unfolding upsert add_file_commit
  add_to_branches delta id r [] detectors = detectors
  add_to_branches delta id r (branch ∷ branches) detectors = add_to_branches delta id r branches (
      upsert branch (Patchset.new C delta)
        (λ d. add_file_commit C d r.path id r.author r.message r.time) detectors)

  -- One round of the worker's loop, and the id that is sent back.
  unfoldable pub receive : ℕ → FileRevision → Observing → ℕ × Observing
  unfolding add_to_branches
  receive delta r o =
      let (id, state) =
        Manager.add_file_revision r.path r.revision r.mark r.branches r.author r.message r.time
          o.state in
      (id, record { state = state; detectors = add_to_branches delta id r r.branches o.detectors })

  -- `Observer::tag`
  unfoldable pub tag : Bytes → ℕ → Observing → Observing
  tag name id o = record o { state = Manager.add_tag name id o.state }

  -- `Observer::new`
  abbrev pub start : Manager → Observing
  start state = record { state = state; detectors = [] }

module _ (C : CommitHeap ℕ) (P : PatchSetHeap ℕ) (O : HashOrder) where
  -- `Collector::join`: the patchsets of each branch. A panic of the worker is its error.
  unfoldable pub join {κ} : {E : Type κ} → Detectors C → Outcome E (Assoc Bytes (List (PatchSet ℕ)))
  unfolding into_patchset_iter
  join [] = ok []
  join ((branch, d) ∷ detectors) = elim (into_patchset_iter C P O d) [
    | none ↦ panic
    | some ps ↦ join detectors >>= λ rest. ok ((branch, ps) ∷ rest)
  ]
