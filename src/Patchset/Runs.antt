-- ===== src/Patchset/Runs.antt =====
-- What the cutting of a bucket into patchsets promises, stated with no loop: the commits in time
-- order are cut into runs, and a run becomes a patchset.
use mathlib.Core.List.{flatten}
use git_cvs_fast_import.Paths.{FilePath}
use git_cvs_fast_import.Prelude.{
  ℕ, ◌+◌, ◌-◌, ◌<◌, ◌≤◌, List, [], ◌∷◌, ◌++◌, Bytes, ◌≡◌, refl, sym, ◌∙◌, ap, arith, ltb,
  if◌then◌else◌, map, All, append_assoc, Bool-cases, inl, inr,
}
use git_cvs_fast_import.Prelude.Equality.{list_eq, nat_eq}
use git_cvs_fast_import.Patchset.{CommitKey, Commit, Files, PatchSet, add_file}

module _ {ID : Type 0} where
  abbrev pub last_time : List (Commit ID) → ℕ
  last_time [] = 0
  last_time (c ∷ []) = c.time
  last_time (c ∷ d ∷ ds) = last_time (d ∷ ds)

  pub last_time-append : (r : List (Commit ID)) (c : Commit ID) → last_time (r ++ c ∷ []) ≡ c.time
  last_time-append [] c = refl
  last_time-append (x ∷ []) c = refl
  last_time-append (x ∷ y ∷ r) c = last_time-append (y ∷ r) c

module _ {ID : Type 0} (delta : ℕ) where
  -- A run that ends at `last` goes on with a commit at most `delta` later.
  unfoldable pub runs_from : ℕ → List (Commit ID) → List (Commit ID) → List (List (Commit ID))
  runs_from last run [] = run ∷ []
  runs_from last run (c ∷ cs) =
      let cut = run ∷ runs_from c.time (c ∷ []) cs in
      let grow = runs_from c.time (run ++ c ∷ []) cs in
      if ltb delta (c.time - last) then cut else grow

  unfoldable pub runs : List (Commit ID) → List (List (Commit ID))
  unfolding runs_from
  runs [] = []
  runs (c ∷ cs) = runs_from c.time (c ∷ []) cs

  -- Neighbours are at most `delta` apart.
  abbrev pub IsLinked : List (Commit ID) → Type 0
  IsLinked [] = Unit
  IsLinked (c ∷ []) = Unit
  IsLinked (c ∷ d ∷ ds) = (d.time ≤ c.time + delta) × IsLinked (d ∷ ds)

  -- From the end of a run to the start of the next it is more than `delta`.
  abbrev pub StartsAfter : ℕ → List (List (Commit ID)) → Type 0
  StartsAfter t [] = Unit
  StartsAfter t ([] ∷ rs) = ⊥
  StartsAfter t ((c ∷ r) ∷ rs) = (t + delta < c.time) × StartsAfter (last_time (c ∷ r)) rs

  abbrev pub IsSeparated : List (List (Commit ID)) → Type 0
  IsSeparated [] = Unit
  IsSeparated (r ∷ rs) = StartsAfter (last_time r) rs

  IsLinked-append :
      (r : List (Commit ID)) (c : Commit ID)
      → IsLinked r
      → c.time ≤ last_time r + delta
      → IsLinked (r ++ c ∷ [])
  IsLinked-append [] c l h = tt
  IsLinked-append (x ∷ []) c l h = (h, tt)
  IsLinked-append (x ∷ y ∷ r) c l h = (l.0, IsLinked-append (y ∷ r) c l.1 h)

  flatten-runs_from : (t : ℕ) (run cs : List (Commit ID)) → flatten (runs_from t run cs) ≡ run ++ cs
  unfolding runs_from flatten
  flatten-runs_from t run [] = refl
  flatten-runs_from t run (c ∷ cs) = elim (Bool-cases (ltb delta (c.time - t))) [
    | inl late ↦ rw late (ap (λ l. run ++ l) (flatten-runs_from c.time (c ∷ []) cs))
    | inr near ↦
        rw near (flatten-runs_from c.time (run ++ c ∷ []) cs ∙ append_assoc run (c ∷ []) cs)
  ]

  -- Each commit stands in one run, and the runs keep the order.
  pub flatten-runs : (cs : List (Commit ID)) → flatten (runs cs) ≡ cs
  unfolding runs flatten
  flatten-runs [] = refl
  flatten-runs (c ∷ cs) = flatten-runs_from c.time (c ∷ []) cs

  runs_from-IsLinked :
      (t : ℕ) (run cs : List (Commit ID))
      → t ≡ last_time run
      → IsLinked run
      → All IsLinked (runs_from t run cs)
  unfolding runs_from
  runs_from-IsLinked t run [] e l = (l, tt)
  runs_from-IsLinked t run (c ∷ cs) e l = elim (Bool-cases (ltb delta (c.time - t))) [
    | inl late ↦ rw late (l, runs_from-IsLinked c.time (c ∷ []) cs refl tt)
    | inr near ↦ rw near (
        runs_from-IsLinked c.time (run ++ c ∷ []) cs (sym (last_time-append run c))
          (IsLinked-append run c l (ground arith)))
  ]

  pub runs-IsLinked : (cs : List (Commit ID)) → All IsLinked (runs cs)
  unfolding runs
  runs-IsLinked [] = tt
  runs-IsLinked (c ∷ cs) = runs_from-IsLinked c.time (c ∷ []) cs refl tt

  -- The first commit of what follows a run of first commit `c` is still `c`.
  StartsAfter-runs_from :
      (t u : ℕ) (c : Commit ID) (r cs : List (Commit ID))
      → u ≡ last_time (c ∷ r)
      → t + delta < c.time
      → StartsAfter t (runs_from u (c ∷ r) cs)
  unfolding runs_from
  StartsAfter-runs_from t u c r [] e h = (h, tt)
  StartsAfter-runs_from t u c r (d ∷ cs) e h = elim (Bool-cases (ltb delta (d.time - u))) [
    | inl late ↦
        rw late (h, StartsAfter-runs_from (last_time (c ∷ r)) d.time d [] cs refl (ground arith))
    | inr near ↦
        rw near
          (StartsAfter-runs_from t d.time c (r ++ d ∷ []) cs (sym (last_time-append (c ∷ r) d)) h)
  ]

  IsSeparated-runs_from :
      (u : ℕ) (c : Commit ID) (r cs : List (Commit ID))
      → u ≡ last_time (c ∷ r)
      → IsSeparated (runs_from u (c ∷ r) cs)
  unfolding runs_from
  IsSeparated-runs_from u c r [] e = tt
  IsSeparated-runs_from u c r (d ∷ cs) e = elim (Bool-cases (ltb delta (d.time - u))) [
    | inl late ↦
        rw late (StartsAfter-runs_from (last_time (c ∷ r)) d.time d [] cs refl (ground arith))
    | inr near ↦
        rw near (IsSeparated-runs_from d.time c (r ++ d ∷ []) cs (sym (last_time-append (c ∷ r) d)))
  ]

  pub runs-IsSeparated : (cs : List (Commit ID)) → IsSeparated (runs cs)
  unfolding runs
  runs-IsSeparated [] = tt
  runs-IsSeparated (c ∷ cs) = IsSeparated-runs_from c.time c [] cs refl

-- A file commit, as a patchset shows it.
pub record Entry (ID : Type 0) : Type 0 where
  pub author : Bytes
  pub message : Bytes
  pub path : FilePath
  pub id : ID

module _ {ID : Type 0} where
  -- The files of a run: for each path its ids, in the order of the commits.
  unfoldable pub group_onto : Files ID → List (Commit ID) → Files ID
  group_onto files [] = files
  group_onto files (c ∷ cs) = group_onto (add_file files c) cs

  unfoldable pub to_patchset : CommitKey → List (Commit ID) → PatchSet ID
  to_patchset key run = record {
    time = last_time run;
    author = key.author;
    message = key.message;
    files = group_onto [] run;
  }

  abbrev pub commit_entry : CommitKey → Commit ID → Entry ID
  commit_entry key c = record {
    author = key.author;
    message = key.message;
    path = c.path;
    id = c.id;
  }

  abbrev pub file_entries : CommitKey → Files ID → List (Entry ID)
  file_entries key [] = []
  file_entries key ((path, ids) ∷ files) =
      map (λ i. record { author = key.author; message = key.message; path = path; id = i }) ids
      ++ file_entries key files

  abbrev pub entries : PatchSet ID → List (Entry ID)
  entries p = file_entries (record { author = p.author; message = p.message }) p.files
