-- ===== src/Patchset.antt =====
-- patchset/src/lib.rs: file commits are bucketed by author and message, and each bucket is cut
-- into patchsets where two commits that follow one another are more than `delta` apart.
-- `BinaryHeap` of the crate `binary_heap_plus` and the iteration order of `HashMap` are parameters.
pub mod Heap
pub mod Runs
pub mod Loop
pub mod Detect
pub mod Content
pub mod Concrete
pub mod Tests
use git_cvs_fast_import.Prelude.{
  ℕ, List, [], ◌∷◌, ◌++◌, Option, none, some, Bytes, Bool, true, false, ◌&&◌, ◌≡◌, ◌↔◌, arith, ltb,
  if◌then◌else◌, last?, Outcome, ok, err,
}
use git_cvs_fast_import.Prelude.Equality.{Eq, ◌=?◌, nat_eq, list_eq, list_beq_iff}
use git_cvs_fast_import.Prelude.Assoc.{Assoc, lookup, insert, upsert}
use git_cvs_fast_import.Time.{duration_since, unwrap_or_default, unix_epoch}
use git_cvs_fast_import.Paths.{FilePath}
use Heap.{MinHeap, HashOrder}

pub record CommitKey : Type 0 where
  pub author : Bytes
  pub message : Bytes

abbrev pub CommitKey_beq : CommitKey → CommitKey → Bool
CommitKey_beq a b = (a.author =? b.author) && (a.message =? b.message)

pub CommitKey_beq_iff : (a b : CommitKey) → (CommitKey_beq a b ≡ true) ↔ (a ≡ b)
CommitKey_beq_iff a b =
    ground (arith, list_beq_iff a.author b.author, list_beq_iff a.message b.message)

instance abbrev pub CommitKey_eq : Eq CommitKey
CommitKey_eq = record { beq = CommitKey_beq; beq_iff = CommitKey_beq_iff }

pub record Commit (ID : Type 0) : Type 0 where
  pub path : FilePath
  pub id : ID
  pub time : ℕ

-- `files : HashMap<PathBuf, Vec<ID>>`
abbrev pub Files : Type 0 → Type 0
Files ID = Assoc FilePath (List ID)

pub record PatchSet (ID : Type 0) : Type 0 where
  pub time : ℕ
  pub author : Bytes
  pub message : Bytes
  pub files : Files ID

-- `Default for PatchSet`
abbrev pub default_patchset : {ID : Type 0} → PatchSet ID
default_patchset = record { time = unix_epoch; author = []; message = []; files = [] }

-- `Ord for Commit` and `Ord for PatchSet` compare the times alone.
abbrev pub commit_time : {ID : Type 0} → Commit ID → ℕ
commit_time c = c.time

abbrev pub patchset_time : {ID : Type 0} → PatchSet ID → ℕ
patchset_time p = p.time

abbrev pub CommitHeap : Type 0 → Type 1
CommitHeap ID = MinHeap (Commit ID) commit_time

abbrev pub PatchSetHeap : Type 0 → Type 1
PatchSetHeap ID = MinHeap (PatchSet ID) patchset_time

-- `pending_files.entry(commit.path).or_insert_with(Vec::new).push(commit.id)`
unfoldable pub add_file : {ID : Type 0} → Files ID → Commit ID → Files ID
add_file files c = upsert c.path [] (λ ids. ids ++ c.id ∷ []) files

module _ {ID : Type 0} (C : CommitHeap ID) where
  pub record Detector : Type 0 where
    pub delta : ℕ
    pub file_commits : Assoc CommitKey C.Heap

  unfoldable pub new : ℕ → Detector
  new delta = record { delta = delta; file_commits = [] }

  -- `get_mut(&key)` and `push`, or a new heap
  push_commit : CommitKey → Commit ID → Assoc CommitKey C.Heap → Assoc CommitKey C.Heap
  push_commit key value buckets = elim (lookup key buckets) [
    | some v ↦ insert key (C.push value v) buckets
    | none ↦ insert key (C.push value C.new_min) buckets
  ]

  unfoldable pub add_file_commit : Detector → FilePath → ID → Bytes → Bytes → ℕ → Detector
  unfolding push_commit
  add_file_commit d path id author message time = record d {
    file_commits =
        push_commit (record { author = author; message = message })
          (record { path = path; id = id; time = time }) d.file_commits;
  }

-- The loop over the commits of one bucket: its local variables, and the patchsets so far.
pub record Walk (ID H : Type 0) : Type 0 where
  pub last : Option ℕ
  pub pending_files : Files ID
  pub patchsets : H

module _ {ID : Type 0} (P : PatchSetHeap ID) (delta : ℕ) (key : CommitKey) where
  patchset_at : ℕ → Files ID → PatchSet ID
  patchset_at time files = record {
    time = time;
    author = key.author;
    message = key.message;
    files = files;
  }

  -- The patchset is pushed when the commit is more than `delta` after the last one.
  close_if_late : Commit ID → Option ℕ → Walk ID P.Heap → Walk ID P.Heap
  unfolding patchset_at
  close_if_late commit none w = w
  close_if_late commit (some last) w =
      if ltb delta (unwrap_or_default (duration_since commit.time last))
      then record w {
        pending_files = [];
        patchsets = P.push (patchset_at last w.pending_files) w.patchsets;
      }
      else w

  visit : Walk ID P.Heap → Commit ID → Walk ID P.Heap
  unfolding close_if_late add_file
  visit w commit =
      let w' = close_if_late commit w.last w in
      record w' { last = some commit.time; pending_files = add_file w'.pending_files commit }

  visit_all : Walk ID P.Heap → List (Commit ID) → Walk ID P.Heap
  unfolding visit
  visit_all w [] = w
  visit_all w (c ∷ cs) = visit_all (visit w c) cs

  -- What is left is pushed; `none` is the panic of `last.unwrap()`.
  push_rest : Files ID → Option ℕ → P.Heap → Option P.Heap
  unfolding patchset_at
  push_rest [] last patchsets = some patchsets
  push_rest (f ∷ fs) none patchsets = none
  push_rest (f ∷ fs) (some last) patchsets = some (P.push (patchset_at last (f ∷ fs)) patchsets)

  pub cut_bucket : List (Commit ID) → P.Heap → Option P.Heap
  unfolding visit_all push_rest
  cut_bucket commits patchsets =
      let w =
        visit_all (record { last = none; pending_files = []; patchsets = patchsets }) commits in
      push_rest w.pending_files w.last w.patchsets

module _ {ID : Type 0} (C : CommitHeap ID) (P : PatchSetHeap ID) (O : HashOrder) where
  pub cut_buckets : ℕ → Assoc CommitKey C.Heap → P.Heap → Option P.Heap
  unfolding cut_bucket
  cut_buckets delta [] patchsets = some patchsets
  cut_buckets delta ((key, commits) ∷ rest) patchsets =
      elim (cut_bucket P delta key (C.into_iter_sorted commits) patchsets) [
        | none ↦ none
        | some patchsets' ↦ cut_buckets delta rest patchsets'
      ]

  pub into_binary_heap : Detector C → Option P.Heap
  unfolding cut_buckets
  into_binary_heap d = cut_buckets d.delta (O.order (CommitKey × C.Heap) d.file_commits) P.new_min

  -- `none` is a panic.
  unfoldable pub into_patchset_iter : Detector C → Option (List (PatchSet ID))
  unfolding into_binary_heap
  into_patchset_iter d = elim (into_binary_heap d) [
    | none ↦ none
    | some heap ↦ some (P.into_iter_sorted heap)
  ]

pub data Error : Type 0 where
  file_not_found : FilePath → Error
  missing_file_content : Error

module _ {ID : Type 0} where
  content : List ID → Outcome Error ID
  content ids = elim (last? ids) [ some id ↦ ok id | none ↦ err missing_file_content ]

  pub file_content : PatchSet ID → FilePath → Outcome Error ID
  unfolding content
  file_content p file = elim (lookup file p.files) [
    | some ids ↦ content ids
    | none ↦ err (file_not_found file)
  ]

  latest : Files ID → List (FilePath × ID)
  latest [] = []
  latest ((file, ids) ∷ rest) =
      let more = latest rest in elim (last? ids) [ some id ↦ (file, id) ∷ more | none ↦ more ]

  -- `iter()` and `filter_map`, in the order of the map's entries
  unfoldable pub file_content_iter : HashOrder → PatchSet ID → List (FilePath × ID)
  unfolding latest
  file_content_iter O p = latest (O.order (FilePath × List ID) p.files)

  unfoldable pub file_revision_iter : HashOrder → PatchSet ID → List (FilePath × List ID)
  file_revision_iter O p = O.order (FilePath × List ID) p.files
