-- ===== src/Patchset/Detect.antt =====
-- `Detector` as a whole: what was added comes out once, in patchsets in time order.
use mathlib.Core.List.{flat_map, flatten}
use git_cvs_fast_import.Paths.{FilePath}
use git_cvs_fast_import.Prelude.{
  ℕ, ◌+◌, List, [], ◌∷◌, ◌++◌, none, some, ◌≡◌, refl, ap, arith, map, Bool-cases, inl, inr,
  Option-cases,
}
use git_cvs_fast_import.Prelude.Equality.{Eq, ◌=?◌, list_eq, nat_eq, list_beq_iff}
use git_cvs_fast_import.Prelude.Assoc.{Assoc, lookup, insert, upsert}
use git_cvs_fast_import.Prelude.Multiset.{
  total, SameItems, Sorted, total-append, total-map, total-flat_map, flat_map-SameItems,
}
use git_cvs_fast_import.Patchset.Heap.{HashOrder}
use git_cvs_fast_import.Patchset.{
  CommitKey, CommitKey_eq, Commit, Files, PatchSet, PatchSetHeap, CommitHeap, Detector, new,
  push_commit, add_file_commit, add_file, into_binary_heap, into_patchset_iter, patchset_time,
}
use git_cvs_fast_import.Patchset.Runs.{
  runs, flatten-runs, group_onto, to_patchset, Entry, commit_entry, file_entries, entries,
}
use git_cvs_fast_import.Patchset.Loop.{bucket_patchsets, cut_buckets-patchsets}

-- A write to an association list moves a sum by what it does to the one entry.
module _ {ℓ κ} {K : Type ℓ} {V : Type κ} ⦃e : Eq K⦄ (g : K × V → ℕ) where
  total-insert-some :
      (k : K) (v w : V) (m : Assoc K V)
      → lookup k m ≡ some w
      → total g (insert k v m) + g (k, w) ≡ total g m + g (k, v)
  unfolding lookup insert
  total-insert-some k v w [] h = cc
  total-insert-some k v w ((j, u) ∷ m) h = ground (arith, e.beq_iff j k, total-insert-some k v w m)

  total-insert-none :
      (k : K) (v : V) (m : Assoc K V)
      → lookup k m ≡ none
      → total g (insert k v m) ≡ total g m + g (k, v)
  unfolding lookup insert
  total-insert-none k v [] h = omega arith
  total-insert-none k v ((j, u) ∷ m) h = ground (arith, e.beq_iff j k, total-insert-none k v m)

module _ {ID : Type 0} (key : CommitKey) (f : Entry ID → ℕ) where
  abbrev weight : Commit ID → ℕ
  weight c = f (commit_entry key c)

  -- The measure of one path's ids.
  abbrev id_entry : FilePath → ID → Entry ID
  id_entry path i = record { author = key.author; message = key.message; path = path; id = i }

  total-add_file :
      (files : Files ID) (c : Commit ID)
      → total f (file_entries key (add_file files c)) ≡ total f (file_entries key files) + weight c
  unfolding add_file upsert
  total-add_file [] c = omega arith
  total-add_file ((p, ids) ∷ files) c = elim (Bool-cases (p =? c.path)) [
    | inl same ↦ rw same (
        omega (
          arith,
          total-append f (map (id_entry p) (ids ++ c.id ∷ [])) (file_entries key files),
          total-append f (map (id_entry p) ids) (file_entries key files),
          total-map f (id_entry p) (ids ++ c.id ∷ []),
          total-map f (id_entry p) ids,
          total-append (λ i. f (id_entry p i)) ids (c.id ∷ []),
          ap (λ q. f (id_entry q c.id)) ((list_beq_iff p c.path).0 same),
        ))
    | inr other ↦ rw other (
        omega (
          arith,
          total-add_file files c,
          total-append f (map (id_entry p) ids) (file_entries key files),
          total-append f (map (id_entry p) ids) (file_entries key (add_file files c)),
        ))
  ]

  total-group_onto :
      (files : Files ID) (cs : List (Commit ID))
      → total f (file_entries key (group_onto files cs))
        ≡ total f (file_entries key files) + total weight cs
  unfolding group_onto
  total-group_onto files [] = omega arith
  total-group_onto files (c ∷ cs) =
      omega (arith, total-group_onto (add_file files c) cs, total-add_file files c)

  total-to_patchset :
      (run : List (Commit ID)) → total f (entries (to_patchset key run)) ≡ total weight run
  unfolding to_patchset
  total-to_patchset run = omega (arith, total-group_onto [] run)

  total-runs :
      (rs : List (List (Commit ID)))
      → total f (flat_map entries (map (to_patchset key) rs)) ≡ total weight (flatten rs)
  unfolding flat_map flatten
  total-runs [] = refl
  total-runs (r ∷ rs) = omega (
    arith,
    total-to_patchset r,
    total-runs rs,
    total-append weight r (flatten rs),
    total-append f (entries (to_patchset key r)) (flat_map entries (map (to_patchset key) rs)),
  )

module _ {ID : Type 0} (C : CommitHeap ID) (P : PatchSetHeap ID) (O : HashOrder) where
  -- For any detector, `into_patchset_iter` does not panic; the patchsets come out in ascending time order; and they are just those of the runs of
  -- each bucket.
  pub into_patchset_iter-runs :
      (d : Detector C)
      → (ps : List (PatchSet ID)) × (into_patchset_iter C P O d ≡ some ps)
        × Sorted patchset_time ps
        × SameItems ps (flat_map (bucket_patchsets C P O d.delta) d.file_commits)
  unfolding into_patchset_iter into_binary_heap
  into_patchset_iter-runs d =
      let buckets = O.order (CommitKey × C.Heap) d.file_commits in
      let cut = bucket_patchsets C P O d.delta in
      let (h, e, same) = cut_buckets-patchsets C P O d.delta buckets P.new_min in
      (
        P.into_iter_sorted h,
        (rw (e, into_patchset_iter)),
        P.into_iter_sorted-Sorted h,
        λ f. omega (
          arith,
          same f,
          ap (total f) P.into_iter_sorted-new_min,
          total-append f (flat_map cut buckets) (P.into_iter_sorted P.new_min),
          flat_map-SameItems cut buckets d.file_commits (O.order-SameItems _ d.file_commits) f,
        ),
      )

module _ {ID : Type 0} (C : CommitHeap ID) where
  -- What a detector holds.
  pub held : Detector C → List (Entry ID)
  held d = flat_map (λ b. map (commit_entry b.0) (C.into_iter_sorted b.1)) d.file_commits

  -- Calls of `add_file_commit`, one after another.
  unfoldable pub add_all : Detector C → List (CommitKey × Commit ID) → Detector C
  unfolding add_file_commit
  add_all d [] = d
  add_all d ((k, c) ∷ adds) =
      add_all (add_file_commit C d c.path c.id k.author k.message c.time) adds

  abbrev pub bucket_total : (Entry ID → ℕ) → CommitKey × C.Heap → ℕ
  bucket_total f b = total (λ c. f (commit_entry b.0 c)) (C.into_iter_sorted b.1)

  held_buckets :
      (f : Entry ID → ℕ) (m : Assoc CommitKey C.Heap)
      → total f (flat_map (λ b. map (commit_entry b.0) (C.into_iter_sorted b.1)) m)
        ≡ total (bucket_total f) m
  unfolding flat_map
  held_buckets f [] = refl
  held_buckets f ((k, h) ∷ m) = omega (
    arith,
    held_buckets f m,
    total-map f (commit_entry k) (C.into_iter_sorted h),
    total-append f (map (commit_entry k) (C.into_iter_sorted h))
        (flat_map (λ b. map (commit_entry b.0) (C.into_iter_sorted b.1)) m),
  )

  total-held :
      (f : Entry ID → ℕ) (d : Detector C) → total f (held d) ≡ total (bucket_total f) d.file_commits
  unfolding held
  total-held f d = held_buckets f d.file_commits

  total-push_commit :
      (f : Entry ID → ℕ) (k : CommitKey) (c : Commit ID) (m : Assoc CommitKey C.Heap)
      → total (bucket_total f) (push_commit C k c m)
        ≡ total (bucket_total f) m + f (commit_entry k c)
  unfolding push_commit
  total-push_commit f k c m = elim (Option-cases (lookup k m)) [
    | inl new_key ↦
        rw (new_key, push_commit)
          (omega (
            arith,
            total-insert-none (bucket_total f) k (C.push c C.new_min) m new_key,
            C.into_iter_sorted-push c C.new_min (λ d. f (commit_entry k d)),
            ap (total (λ d. f (commit_entry k d))) C.into_iter_sorted-new_min,
          ))
    | inr (h, old) ↦
        rw (old, push_commit)
          (omega (
            arith,
            total-insert-some (bucket_total f) k (C.push c h) h m old,
            C.into_iter_sorted-push c h (λ d. f (commit_entry k d)),
          ))
  ]

  total-held-add_all :
      (f : Entry ID → ℕ) (d : Detector C) (adds : List (CommitKey × Commit ID))
      → total f (held (add_all d adds))
        ≡ total f (held d) + total (λ a. f (commit_entry a.0 a.1)) adds
  unfolding add_all add_file_commit
  total-held-add_all f d [] = omega arith
  total-held-add_all f d ((k, c) ∷ adds) =
      let d' = add_file_commit C d c.path c.id k.author k.message c.time in
      omega (
        arith,
        total-held-add_all f d' adds,
        total-held f d,
        total-held f d',
        total-push_commit f k c d.file_commits,
      )

module _ {ID : Type 0} (C : CommitHeap ID) (P : PatchSetHeap ID) (O : HashOrder) where
  total-bucket_patchsets :
      (f : Entry ID → ℕ) (delta : ℕ) (m : Assoc CommitKey C.Heap)
      → total f (flat_map entries (flat_map (bucket_patchsets C P O delta) m))
        ≡ total (bucket_total C f) m
  unfolding flat_map
  total-bucket_patchsets f delta [] = refl
  total-bucket_patchsets f delta ((k, h) ∷ m) =
      let here = bucket_patchsets C P O delta (k, h) in
      let more = flat_map (bucket_patchsets C P O delta) m in
      omega (
        arith,
        total-bucket_patchsets f delta m,
        total-flat_map f entries (here ++ more),
        total-append (λ p. total f (entries p)) here more,
        total-flat_map f entries here,
        total-flat_map f entries more,
        total-runs k f (runs delta (C.into_iter_sorted h)),
        ap (total (λ c. f (commit_entry k c))) (flatten-runs delta (C.into_iter_sorted h)),
      )

  total-held-new : (f : Entry ID → ℕ) (delta : ℕ) → total f (held C (new C delta)) ≡ 0
  unfolding held new flat_map
  total-held-new f delta = refl

  -- For any calls of `add_file_commit` on a new detector: `into_patchset_iter` does not panic, the
  -- patchsets ascend by time, and their file ids, with path, author and message, are just those added,
  -- each as often.
  pub into_patchset_iter-add_all :
      (delta : ℕ) (adds : List (CommitKey × Commit ID))
      → (ps : List (PatchSet ID)) × (into_patchset_iter C P O (add_all C (new C delta) adds)
          ≡ some ps)
        × Sorted patchset_time ps
        × SameItems (flat_map entries ps) (map (λ a. commit_entry a.0 a.1) adds)
  into_patchset_iter-add_all delta adds =
      let d = add_all C (new C delta) adds in
      let (ps, e, sorted, same) = into_patchset_iter-runs C P O d in
      (
        ps,
        e,
        sorted,
        λ f. omega (
          arith,
          flat_map-SameItems entries ps (flat_map (bucket_patchsets C P O d.delta) d.file_commits)
              same f,
          total-bucket_patchsets f d.delta d.file_commits,
          total-held C f d,
          total-held-add_all C f (new C delta) adds,
          total-held-new f delta,
          total-map f (λ (a : CommitKey × Commit ID). commit_entry a.0 a.1) adds,
        ),
      )
