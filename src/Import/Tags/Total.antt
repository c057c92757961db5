-- ===== src/Import/Tags/Total.antt =====
-- The tag processor of src/tag.rs succeeds on a state that has what the tag refers to.
use git_cvs_fast_import.Prelude.{
  ℕ, ◌<◌, List, [], ◌∷◌, some, Bytes, Bool, true, false, ok, ◌≡◌, refl, All, Option-cases, inl, inr,
  if◌then◌else◌,
}
use git_cvs_fast_import.Prelude.Equality.{◌=?◌, nat_eq, list_eq}
use git_cvs_fast_import.Decimal.{max_u64}
use git_cvs_fast_import.Time.{unix_epoch}
use git_cvs_fast_import.Paths.{FilePath}
use git_cvs_fast_import.State.{PatchSet}
use git_cvs_fast_import.State.Manager
use git_cvs_fast_import.FastImport.Identity.{Identity}
use git_cvs_fast_import.FastImport.Commit
use git_cvs_fast_import.FastImport.Commit.{CommitBuilder}
use git_cvs_fast_import.Import.{World}
use git_cvs_fast_import.Import.Ready.{IsReady, build-IsReady, IsFound, commit_total}
use git_cvs_fast_import.Import.Tags.{
  Parent, previous_tag, file_content, unparented, Gathered, gather, gather_revision,
  send_fake_commit, process, with_parent, new_builder,
}

with_parent-IsReady :
    (start : Parent) (b : CommitBuilder) → IsReady b → IsReady (with_parent start b)
unfolding Commit.apply
with_parent-IsReady (previous_tag mark) b h = h
with_parent-IsReady (file_content mark time) b h = h
with_parent-IsReady unparented b h = h

module _ (from_utf8_lossy : Bytes → Bytes) (display : FilePath → Bytes) (identity : Identity) where
  gather_total :
      (state : Manager.Manager) (ids : List ℕ) (g : Gathered)
      → All (IsFound state) ids
      → IsReady g.builder
      → (g' : Gathered) × (gather from_utf8_lossy display identity state ids g ≡ ok g')
        × IsReady g'.builder
  unfolding gather gather_revision Commit.apply
  gather_total state [] g found ready = (g, refl, ready)
  gather_total state (id ∷ ids) g ((r, h), found) ready =
      let (g', e, done) =
        gather_total state ids (gather_revision from_utf8_lossy display identity state id r g) found
          ready in
      (g', rw h e, done)

  new_builder-IsReady :
      (tag_str : Bytes) → IsReady (new_builder from_utf8_lossy display identity tag_str)
  unfolding new_builder Commit.apply
  new_builder-IsReady tag_str = ((_, refl), (_, refl))

  send_fake_commit_total :
      (tag : Bytes) (ids : List ℕ) (start : Parent) (w : World)
      → All (IsFound w.state) ids
      → w.output.next_mark < max_u64
      → (w' : World) × (send_fake_commit from_utf8_lossy display identity tag ids start w ≡ ok w')
  unfolding send_fake_commit
  send_fake_commit_total tag ids start w found room =
      let (g, gathered, ready) =
        gather_total w.state ids
          (record {
            builder = new_builder from_utf8_lossy display identity (from_utf8_lossy tag);
            time = unix_epoch;
            parent = start;
          })
          found (new_builder-IsReady (from_utf8_lossy tag)) in
      let (c, built) =
        build-IsReady (with_parent g.parent g.builder)
          (with_parent-IsReady g.parent g.builder ready) in
      let (r, sent, next) = commit_total c w.output room in
      rw gathered (rw built (rw sent (_, refl)))

  either :
      (test : Bool) (tag : Bytes) (ids : List ℕ) (mark : ℕ) (w : World)
      → All (IsFound w.state) ids
      → w.output.next_mark < max_u64
      → (w' : World) × ((if test
            then ok w
            else send_fake_commit from_utf8_lossy display identity tag ids (previous_tag mark) w)
          ≡ ok w')
  either true tag ids mark w found room = (w, refl)
  either false tag ids mark w found room =
      send_fake_commit_total tag ids (previous_tag mark) w found room

  -- If every file revision of the tag is in the state, the mark that the tag may have leads to a
  -- patchset, and there is a mark left, then `process` of the tag succeeds.
  pub process_total :
      (tag : Bytes) (w : World)
      → ((ids : List ℕ)
          → Manager.get_file_revisions_for_tag tag w.state ≡ some ids
          → All (IsFound w.state) ids)
      → ((mark : ℕ)
          → Manager.get_mark_for_tag tag w.state ≡ some mark
          → (p : PatchSet) × (Manager.get_patchset_from_mark mark w.state ≡ ok p))
      → w.output.next_mark < max_u64
      → (w' : World) × (process from_utf8_lossy display identity tag w ≡ ok w')
  unfolding process
  process_total tag w found leads room =
      elim (Option-cases (Manager.get_file_revisions_for_tag tag w.state)) [
        | inl gone ↦ rw (gone, process) (w, refl)
        | inr (ids, there) ↦ (elim (Option-cases (Manager.get_mark_for_tag tag w.state)) [
          | inl first ↦
              rw (there, process)
                (rw first (send_fake_commit_total tag ids unparented w (found ids there) room))
          | inr (mark, seen) ↦
              let (p, stored) = leads mark seen in
              rw (there, process)
                (rw seen (
                  rw stored
                    (either (p.file_revisions =? ids) tag ids mark w (found ids there) room)))
        ])
      ]
