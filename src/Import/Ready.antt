-- ===== src/Import/Ready.antt =====
-- The conditions on which the commits of src/main.rs and src/tag.rs are built and sent.
use git_cvs_fast_import.Prelude.{ℕ, suc, ◌<◌, some, Bytes, ok, ◌≡◌, refl}
use git_cvs_fast_import.Decimal.{max_u64}
use git_cvs_fast_import.State.{FileRevision}
use git_cvs_fast_import.State.Manager
use git_cvs_fast_import.FastImport.{Writer}
use git_cvs_fast_import.FastImport.Read.{command-eq}
use git_cvs_fast_import.FastImport.Identity.{Identity}
use git_cvs_fast_import.FastImport.Commit
use git_cvs_fast_import.FastImport.Commit.{CommitBuilder}
use git_cvs_fast_import.Import

-- A builder that has a committer and a message.
abbrev pub IsReady : CommitBuilder → Type 0
IsReady b = ((c : Identity) × (b.committer ≡ some c)) × ((m : Bytes) × (b.message ≡ some m))

pub build-IsReady : (b : CommitBuilder) → IsReady b → (c : Commit.Commit) × (Commit.build b ≡ ok c)
unfolding Commit.build
build-IsReady b ((c, hc), (m, hm)) = rw (hc, Commit.build) (rw hm (_, refl))

-- The state has the revision with the id.
abbrev pub IsFound : Manager.Manager → ℕ → Type 0
IsFound state id = (r : FileRevision) × (Manager.get_file_revision_by_id id state ≡ ok r)

pub commit_total :
    (c : Commit.Commit) (output : Writer)
    → output.next_mark < max_u64
    → (r : ℕ × Writer) × (Import.commit c output ≡ ok r) × (r.1.next_mark ≡ suc output.next_mark)
unfolding Import.commit
commit_total c output h = (_, command-eq (Commit.write c) output h, refl)
