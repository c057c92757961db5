-- ===== src/Import/Patchsets/Total.antt =====
-- `send_patchsets` of src/main.rs succeeds on a state that has what the patchsets refer to.
use git_cvs_fast_import.Prelude.{
  ℕ, suc, ◌+◌, ◌<◌, ◌≤◌, List, [], ◌∷◌, ◌++◌, Option, none, some, Bytes, codes, length, ok, ◌≡◌,
  refl, All, Option-cases, inl, inr, leb, true, arith,
}
use git_cvs_fast_import.Decimal.{max_u64}
use git_cvs_fast_import.Time.{unix_epoch}
use git_cvs_fast_import.Paths.{FilePath}
use git_cvs_fast_import.Patchset.{PatchSet, file_content_iter}
use git_cvs_fast_import.Patchset.Heap.{HashOrder}
use git_cvs_fast_import.State.Manager
use git_cvs_fast_import.FastImport.Identity
use git_cvs_fast_import.FastImport.Identity.{Identity}
use git_cvs_fast_import.FastImport.Commit
use git_cvs_fast_import.FastImport.Commit.{CommitBuilder}
use git_cvs_fast_import.Import.{World}
use git_cvs_fast_import.Import.Ready.{IsReady, build-IsReady, IsFound, commit_total}
use git_cvs_fast_import.Import.Patchsets.{
  file_command, add_file_commands, with_parent, file_revision_ids, builder_for, send_new,
  send_patchset, send_loop, send_patchsets,
}

add_file_commands_total :
    (display : FilePath → Bytes) (state : Manager.Manager) (files : List (FilePath × ℕ))
    (b : CommitBuilder)
    → All (λ f. IsFound state f.1) files
    → IsReady b
    → (b' : CommitBuilder) × (add_file_commands display state files b ≡ ok b') × IsReady b'
unfolding add_file_commands Commit.apply
add_file_commands_total display state [] b found ready = (b, refl, ready)
add_file_commands_total display state ((path, id) ∷ files) b ((r, h), found) ready =
    let (b', e, done) =
      add_file_commands_total display state files
        (Commit.apply (Commit.add_file_command (file_command (display path) r)) b) found ready in
    (b', rw h e, done)

identity_total :
    (email : Bytes) (time : ℕ)
    → unix_epoch ≤ time
    → (i : Identity) × (Identity.new none email time ≡ ok i)
unfolding Identity.new
identity_total email time h =
    let after : leb unix_epoch time ≡ true = ground arith in rw (after, Identity.new) (_, refl)

with_parent-IsReady :
    (from : Option ℕ) (b : CommitBuilder) → IsReady b → IsReady (with_parent from b)
unfolding Commit.apply
with_parent-IsReady none b h = h
with_parent-IsReady (some mark) b h = h

module _ (O : HashOrder) (display : FilePath → Bytes) (branch branch_str : Bytes) where
  -- The patchset is not before the epoch, and the state has the revisions of its files.
  abbrev pub IsSendable : Manager.Manager → PatchSet ℕ → Type 0
  IsSendable state p = (unix_epoch ≤ p.time) × All (λ f. IsFound state f.1) (file_content_iter O p)

  builder_for_total :
      (from : Option ℕ) (p : PatchSet ℕ) (state : Manager.Manager)
      → IsSendable state p
      → (b : CommitBuilder) × (builder_for O display branch branch_str from p state ≡ ok b)
        × IsReady b
  unfolding builder_for Commit.apply
  builder_for_total from p state (late, found) =
      let (i, made) = identity_total p.author p.time late in
      let (b, e, ready) =
        add_file_commands_total display state (file_content_iter O p)
          (with_parent from (
            Commit.apply (Commit.set_message p.message) (
              Commit.apply (Commit.set_committer i)
                (Commit.new (codes "refs/heads/" ++ branch_str)))))
          found (with_parent-IsReady from _ ((_, refl), (_, refl))) in
      (b, rw made e, ready)

  -- What a round needs of the world, and what it leaves of it for the next.
  abbrev Leaves : World → World → Type 0
  Leaves w w' =
      ((id : ℕ) → IsFound w.state id → IsFound w'.state id)
      × (w'.output.next_mark ≤ suc w.output.next_mark)

  send_new_total :
      (b : CommitBuilder) (p : PatchSet ℕ) (w : World)
      → IsReady b
      → w.output.next_mark < max_u64
      → (r : ℕ × World) × (send_new O display branch branch_str b p w ≡ ok r) × Leaves w r.1
  unfolding send_new Manager.get_file_revision_by_id Manager.add_patchset
  send_new_total b p w ready room =
      let (c, built) = build-IsReady b ready in
      let (r, sent, next) = commit_total c w.output room in
      rw built (rw sent (_, refl, ((λ id h. h), omega (arith, next))))

  send_patchset_total :
      (from : Option ℕ) (p : PatchSet ℕ) (w : World)
      → IsSendable w.state p
      → w.output.next_mark < max_u64
      → (r : ℕ × World) × (send_patchset O display branch branch_str from p w ≡ ok r) × Leaves w r.1
  unfolding send_patchset Manager.get_file_revision_by_id Manager.add_branch_to_patchset_mark
  send_patchset_total from p w ready room =
      let (b, made, whole) = builder_for_total from p w.state ready in
      rw made
        (elim (Option-cases
          (Manager.get_mark_from_patchset_content p.time (file_revision_ids O p) w.state)) [
            | inl new ↦ rw new (send_new_total b p w whole room)
            | inr (mark, known) ↦ rw known (_, refl, ((λ id h. h), omega arith))
          ])

  All-IsFound :
      (before after : Manager.Manager) (files : List (FilePath × ℕ))
      → ((id : ℕ) → IsFound before id → IsFound after id)
      → All (λ f. IsFound before f.1) files
      → All (λ f. IsFound after f.1) files
  All-IsFound before after [] keep found = tt
  All-IsFound before after (f ∷ files) keep (here, found) =
      (keep f.1 here, All-IsFound before after files keep found)

  All-IsSendable :
      (before after : Manager.Manager) (ps : List (PatchSet ℕ))
      → ((id : ℕ) → IsFound before id → IsFound after id)
      → All (IsSendable before) ps
      → All (IsSendable after) ps
  All-IsSendable before after [] keep ready = tt
  All-IsSendable before after (p ∷ ps) keep ((late, found), ready) = (
    (late, All-IsFound before after (file_content_iter O p) keep found),
    All-IsSendable before after ps keep ready,
  )

  send_loop_total :
      (ps : List (PatchSet ℕ)) (from : Option ℕ) (w : World)
      → All (IsSendable w.state) ps
      → w.output.next_mark + length ps ≤ max_u64
      → (r : Option ℕ × World) × (send_loop O display branch branch_str from ps w ≡ ok r)
  unfolding send_loop
  send_loop_total [] from w ready room = ((from, w), refl)
  send_loop_total (p ∷ ps) from w (first, ready) room =
      let (r, sent, (keep, bound)) = send_patchset_total from p w first (omega arith) in
      let (last, rest) =
        send_loop_total ps (some r.0) r.1 (All-IsSendable w.state r.1.state ps keep ready)
          (omega (arith, bound, room)) in
      (last, rw sent rest)

  -- If the branch's name is UTF-8, no patchset is before the epoch, the state has the file revisions of
  -- the patchsets' files, and there are marks left for all the patchsets, then `send_patchsets`
  -- succeeds.
  pub send_patchsets_total :
      (from_utf8 : Bytes → Option Bytes) (ps : List (PatchSet ℕ)) (w : World)
      → from_utf8 branch ≡ some branch_str
      → All (IsSendable w.state) ps
      → w.output.next_mark + length ps ≤ max_u64
      → (w' : World) × (send_patchsets O display from_utf8 branch ps w ≡ ok w')
  unfolding send_patchsets
  send_patchsets_total from_utf8 ps w utf8 ready room =
      let (r, sent) =
        send_loop_total ps (Manager.get_last_patchset_mark_on_branch branch w.state) w ready room in
      rw (utf8, send_patchsets) (rw sent (_, refl))
