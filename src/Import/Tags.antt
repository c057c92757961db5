-- ===== src/Import/Tags.antt =====
-- The tag processor of src/tag.rs, and `send_tags` of src/main.rs. `String::from_utf8_lossy` and the
-- text that `Path::display` prints are arguments.
pub mod Again
pub mod Total
use git_cvs_fast_import.Prelude.{
  ℕ, List, [], ◌∷◌, ◌++◌, Option, none, some, Bytes, codes, ltb, if◌then◌else◌, Outcome, ok, err,
  ◌>>=◌,
}
use git_cvs_fast_import.Prelude.Equality.{◌=?◌, nat_eq, list_eq}
use git_cvs_fast_import.Time.{unix_epoch}
use git_cvs_fast_import.Paths.{FilePath}
use git_cvs_fast_import.State.{FileRevision, PatchSet}
use git_cvs_fast_import.State.Manager
use git_cvs_fast_import.FastImport.Identity.{Identity}
use git_cvs_fast_import.FastImport.Commit
use git_cvs_fast_import.FastImport.Commit.{
  CommitBuilder, delete_all, set_committer, set_message, set_from, add_file_command,
}
use git_cvs_fast_import.Import
use git_cvs_fast_import.Import.{World, Error, map_err, state_error, fast_import}
use git_cvs_fast_import.Import.Patchsets.{file_command}

pub data Parent : Type 0 where
  previous_tag : ℕ → Parent
  file_content : (mark time : ℕ) → Parent
  unparented : Parent

-- What a file revision's last patchset does to the parent.
unfoldable pub next_parent : Parent → Option (ℕ × PatchSet) → Parent
next_parent (previous_tag mark) last = previous_tag mark
next_parent parent none = parent
next_parent (file_content mark time) (some (m, p)) =
    if ltb time p.time then file_content m p.time else file_content mark time
next_parent unparented (some (m, p)) = file_content m p.time

-- `builder.from(mark)`, if there is a parent.
abbrev pub with_parent : Parent → CommitBuilder → CommitBuilder
with_parent (previous_tag mark) builder = Commit.apply (set_from mark) builder
with_parent (file_content mark time) builder = Commit.apply (set_from mark) builder
with_parent unparented builder = builder

-- The variables of the loop over the tag's file revisions.
pub record Gathered : Type 0 where
  pub builder : CommitBuilder
  pub time : ℕ
  pub parent : Parent

module _ (from_utf8_lossy : Bytes → Bytes) (display : FilePath → Bytes) (identity : Identity) where
  -- One round of the loop, for the revision with the id.
  pub gather_revision : Manager.Manager → ℕ → FileRevision → Gathered → Gathered
  unfolding next_parent Commit.apply
  gather_revision state id r g = record {
    builder = Commit.apply (add_file_command (file_command (display r.key.path) r)) g.builder;
    time = if ltb g.time r.time then r.time else g.time;
    parent = next_parent g.parent (Manager.get_last_patchset_for_file_revision id state);
  }

  pub gather : Manager.Manager → List ℕ → Gathered → Outcome Error Gathered
  unfolding gather_revision
  gather state [] g = ok g
  gather state (id ∷ ids) g = do
    r ← map_err state_error (Manager.get_file_revision_by_id id state)
    gather state ids (gather_revision state id r g)

  pub new_builder : Bytes → CommitBuilder
  unfolding Commit.apply
  new_builder tag_str = Commit.apply (add_file_command delete_all) (
      Commit.apply (set_message (codes "Fake commit for tag " ++ (tag_str ++ codes ".")))
        (Commit.apply (set_committer identity) (Commit.new (codes "refs/heads/tags/" ++ tag_str))))

  -- The fake commit: it is sent and recorded, and the tag is set to it.
  pub send_fake_commit : Bytes → List ℕ → Parent → World → Outcome Error World
  unfolding gather new_builder
  send_fake_commit tag ids parent w = do
    g ←
        gather w.state ids (record {
          builder = new_builder (from_utf8_lossy tag);
          time = unix_epoch;
          parent = parent;
        })
    commit ← map_err fast_import (Commit.build (with_parent g.parent g.builder))
    (mark, output) ← map_err fast_import (Import.commit commit w.output)
    ok (record {
      state = Manager.add_tag_mark tag mark (Manager.add_patchset mark tag g.time ids w.state);
      output = Import.lightweight_tag (from_utf8_lossy tag) mark output;
    })

  -- `Processor::process`
  unfoldable pub process : Bytes → World → Outcome Error World
  unfolding send_fake_commit
  process tag w = elim (Manager.get_file_revisions_for_tag tag w.state) [
    | none ↦ ok w
    | some ids ↦ (elim (Manager.get_mark_for_tag tag w.state) [
      | none ↦ send_fake_commit tag ids unparented w
      | some mark ↦ map_err state_error (Manager.get_patchset_from_mark mark w.state) >>= λ p.
          if p.file_revisions =? ids then ok w else send_fake_commit tag ids (previous_tag mark) w
    ])
  ]

  process_all : List Bytes → World → Outcome Error World
  unfolding process
  process_all [] w = ok w
  process_all (tag ∷ tags) w = process tag w >>= process_all tags

  -- `send_tags`, over the tags in the order of the map's keys
  unfoldable pub send_tags : World → Outcome Error World
  unfolding process_all
  send_tags w = process_all (Manager.get_tags w.state) w
