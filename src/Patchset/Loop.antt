-- ===== src/Patchset/Loop.antt =====
-- The loop of `into_binary_heap` against the runs of a bucket.
use mathlib.Core.List.{flatten, flat_map}
use mathlib.Core.Path.{subst}
use git_cvs_fast_import.Prelude.{
  ℕ, ◌-◌, List, [], ◌∷◌, ◌++◌, none, some, ◌≡◌, ◌≢◌, refl, sym, arith, ltb, map, All, Bool-cases,
  inl, inr, true, false,
}
use git_cvs_fast_import.Prelude.Equality.{list_eq, nat_eq}
use git_cvs_fast_import.Prelude.Assoc.{Assoc, upsert}
use git_cvs_fast_import.Prelude.Multiset.{SameItems, total-append}
use git_cvs_fast_import.Time.{duration_since, unwrap_or_default}
use git_cvs_fast_import.Patchset.Heap.{HashOrder}
use git_cvs_fast_import.Patchset.{
  CommitKey, Commit, Files, PatchSet, PatchSetHeap, CommitHeap, Walk, add_file, patchset_at,
  close_if_late, visit, visit_all, push_rest, cut_bucket, cut_buckets,
}
use git_cvs_fast_import.Patchset.Runs.{
  runs, runs_from, last_time, last_time-append, group_onto, to_patchset, IsLinked, IsSeparated,
  flatten-runs, runs-IsLinked, runs-IsSeparated,
}

gap : (a b : ℕ) → unwrap_or_default (duration_since a b) ≡ a - b
gap a b = ground arith

module _ {ID : Type 0} where
  add_file-ne-nil : (files : Files ID) (c : Commit ID) → add_file files c ≢ []
  unfolding add_file upsert
  add_file-ne-nil [] c h = cc
  add_file-ne-nil ((p, ids) ∷ files) c h = ground arith

  group_onto-append :
      (files : Files ID) (run : List (Commit ID)) (c : Commit ID)
      → group_onto files (run ++ c ∷ []) ≡ add_file (group_onto files run) c
  unfolding group_onto
  group_onto-append files [] c = refl
  group_onto-append files (d ∷ run) c = group_onto-append (add_file files d) run c

  group_onto-ne-nil :
      (files : Files ID) (run : List (Commit ID)) → files ≢ [] → group_onto files run ≢ []
  unfolding group_onto
  group_onto-ne-nil files [] h = h
  group_onto-ne-nil files (c ∷ run) h =
      group_onto-ne-nil (add_file files c) run (add_file-ne-nil files c)

  group_onto-run-ne-nil : (c : Commit ID) (r : List (Commit ID)) → group_onto [] (c ∷ r) ≢ []
  unfolding group_onto
  group_onto-run-ne-nil c r = group_onto-ne-nil (add_file [] c) r (add_file-ne-nil [] c)

module _ {ID : Type 0} (P : PatchSetHeap ID) (delta : ℕ) (key : CommitKey) where
  -- The loop's state at the end of the non-empty run `c ∷ r`.
  abbrev at_run : Commit ID → List (Commit ID) → P.Heap → Walk ID P.Heap
  at_run c r h = record {
    last = some (last_time (c ∷ r));
    pending_files = group_onto [] (c ∷ r);
    patchsets = h;
  }

  push_run : List (Commit ID) → P.Heap → P.Heap
  push_run run h = P.push (to_patchset key run) h

  visit_late :
      (c : Commit ID) (r : List (Commit ID)) (d : Commit ID) (h : P.Heap)
      → ltb delta (d.time - last_time (c ∷ r)) ≡ true
      → visit P delta key (at_run c r h) d ≡ at_run d [] (push_run (c ∷ r) h)
  unfolding visit close_if_late push_run to_patchset patchset_at group_onto
  visit_late c r d h late = rw (gap d.time (last_time (c ∷ r)), late, close_if_late)

  visit_near :
      (c : Commit ID) (r : List (Commit ID)) (d : Commit ID) (h : P.Heap)
      → ltb delta (d.time - last_time (c ∷ r)) ≡ false
      → visit P delta key (at_run c r h) d ≡ at_run c (r ++ d ∷ []) h
  unfolding visit close_if_late
  visit_near c r d h near =
      rw (gap d.time (last_time (c ∷ r)), near, close_if_late)
        (rw (last_time-append (c ∷ r) d, group_onto-append [] (c ∷ r) d))

  visit_first :
      (c : Commit ID) (h : P.Heap)
      → visit P delta key (record { last = none; pending_files = []; patchsets = h }) c
        ≡ at_run c [] h
  unfolding visit close_if_late group_onto
  visit_first c h = refl

  push_rest-run :
      (c : Commit ID) (r : List (Commit ID)) (files : Files ID) (h : P.Heap)
      → files ≡ group_onto [] (c ∷ r)
      → files ≢ []
      → push_rest P delta key files (some (last_time (c ∷ r))) h ≡ some (push_run (c ∷ r) h)
  unfolding push_rest push_run to_patchset patchset_at
  push_rest-run c r [] h e n = absurd (n refl)
  push_rest-run c r (f ∷ fs) h e n = rw e

  abbrev Cuts : Walk ID P.Heap → List (List (Commit ID)) → P.Heap → Type 0
  Cuts w rs h =
      (h' : P.Heap) × (push_rest P delta key w.pending_files w.last w.patchsets ≡ some h')
      × SameItems (P.into_iter_sorted h') (map (to_patchset key) rs ++ P.into_iter_sorted h)

  pushed :
      (run : List (Commit ID)) (h : P.Heap)
      → SameItems (P.into_iter_sorted (push_run run h)) (to_patchset key run ∷ P.into_iter_sorted h)
  unfolding push_run
  pushed run h = P.into_iter_sorted-push (to_patchset key run) h

  visit_all-Cuts :
      (c : Commit ID) (r cs : List (Commit ID)) (h : P.Heap)
      → Cuts
          (visit_all P delta key (at_run c r h) cs)
          (runs_from delta (last_time (c ∷ r)) (c ∷ r) cs)
          h
  unfolding visit_all runs_from
  visit_all-Cuts c r [] h =
      (push_run (c ∷ r) h, push_rest-run c r _ h refl (group_onto-run-ne-nil c r), pushed (c ∷ r) h)
  visit_all-Cuts c r (d ∷ cs) h = elim (Bool-cases (ltb delta (d.time - last_time (c ∷ r)))) [
    | inl late ↦
        let (h', e, same) = visit_all-Cuts d [] cs (push_run (c ∷ r) h) in
        rw late (
          subst
            (λ w.
              Cuts (visit_all P delta key w cs) ((c ∷ r) ∷ runs_from delta d.time (d ∷ []) cs) h)
            (sym (visit_late c r d h late))
            (
              h',
              e,
              λ f. omega (
                arith,
                same f,
                pushed (c ∷ r) h f,
                total-append f (map (to_patchset key) (runs_from delta d.time (d ∷ []) cs))
                    (P.into_iter_sorted (push_run (c ∷ r) h)),
                total-append f (map (to_patchset key) (runs_from delta d.time (d ∷ []) cs))
                    (P.into_iter_sorted h),
              ),
            ))
    | inr near ↦ rw near (
        subst
          (λ w. Cuts (visit_all P delta key w cs) (runs_from delta d.time (c ∷ (r ++ d ∷ [])) cs) h)
          (sym (visit_near c r d h near))
          (subst
            (λ t.
              Cuts (visit_all P delta key (at_run c (r ++ d ∷ []) h) cs)
                (runs_from delta t (c ∷ (r ++ d ∷ [])) cs) h)
            (last_time-append (c ∷ r) d) (visit_all-Cuts c (r ++ d ∷ []) cs h)))
  ]

  cut_bucket-Cuts :
      (commits : List (Commit ID)) (h : P.Heap)
      → (h' : P.Heap) × (cut_bucket P delta key commits h ≡ some h')
        × SameItems
            (P.into_iter_sorted h')
            (map (to_patchset key) (runs delta commits) ++ P.into_iter_sorted h)
  unfolding cut_bucket runs visit_all
  cut_bucket-Cuts [] h = (h, (unfold push_rest in refl), λ f. refl)
  cut_bucket-Cuts (c ∷ cs) h =
      subst (λ w. Cuts (visit_all P delta key w cs) (runs_from delta c.time (c ∷ []) cs) h)
        (sym (visit_first c h)) (visit_all-Cuts c [] cs h)

module _ {ID : Type 0} (P : PatchSetHeap ID) (delta : ℕ) (key : CommitKey) where
  -- For any bucket's commits, in any order, and any heap: the loop does not panic, and it adds to the
  -- heap just the patchsets of a partition of the commits into runs, where neighbours in a run are at
  -- most `delta` apart and from the end of a run to the start of the next it is more than `delta`.
  pub cut_bucket-partition :
      (commits : List (Commit ID)) (h : P.Heap)
      → (h' : P.Heap) × (rs : List (List (Commit ID))) × (cut_bucket P delta key commits h
          ≡ some h')
        × SameItems (P.into_iter_sorted h') (map (to_patchset key) rs ++ P.into_iter_sorted h)
        × (flatten rs ≡ commits)
        × All (IsLinked delta) rs
        × IsSeparated delta rs
  cut_bucket-partition commits h =
      let (h', e, same) = cut_bucket-Cuts P delta key commits h in
      (
        h',
        runs delta commits,
        e,
        same,
        flatten-runs delta commits,
        runs-IsLinked delta commits,
        runs-IsSeparated delta commits,
      )

module _ {ID : Type 0} (C : CommitHeap ID) (P : PatchSetHeap ID) (O : HashOrder) (delta : ℕ) where
  abbrev pub bucket_patchsets : CommitKey × C.Heap → List (PatchSet ID)
  bucket_patchsets b = map (to_patchset b.0) (runs delta (C.into_iter_sorted b.1))

  pub cut_buckets-patchsets :
      (buckets : Assoc CommitKey C.Heap) (h : P.Heap)
      → (h' : P.Heap) × (cut_buckets C P O delta buckets h ≡ some h')
        × SameItems
            (P.into_iter_sorted h')
            (flat_map bucket_patchsets buckets ++ P.into_iter_sorted h)
  unfolding cut_buckets flat_map
  cut_buckets-patchsets [] h = (h, refl, λ f. refl)
  cut_buckets-patchsets ((key, commits) ∷ rest) h =
      let (h₁, e₁, same₁) = cut_bucket-Cuts P delta key (C.into_iter_sorted commits) h in
      let (h₂, e₂, same₂) = cut_buckets-patchsets rest h₁ in
      (
        h₂,
        (rw (e₁, cut_buckets) e₂),
        λ f.
            let here = bucket_patchsets (key, commits) in
            let more = flat_map bucket_patchsets rest in
            omega (
              arith,
              same₁ f,
              same₂ f,
              total-append f here (P.into_iter_sorted h),
              total-append f more (P.into_iter_sorted h₁),
              total-append f here more,
              total-append f (here ++ more) (P.into_iter_sorted h),
            ),
      )
