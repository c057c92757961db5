-- ===== src/FastImport/Build.antt =====
-- The commit builder of git-fast-import/src/commit.rs: what it builds from the settings.
use git_cvs_fast_import.Prelude.{
  ℕ, List, [], ◌∷◌, ◌++◌, Option, none, some, Bytes, ◌≡◌, sym, ap, ◌∙◌, ok, err, append_assoc,
  append-nil,
}
use git_cvs_fast_import.FastImport.{missing_committer, missing_commit_message}
use git_cvs_fast_import.FastImport.Identity.{Identity}
use git_cvs_fast_import.FastImport.Commit.{
  FileCommand, CommitBuilder, new, Setting, set_author, set_committer, set_message, set_from,
  set_merge, add_file_command, apply, build,
}

-- The settings applied in their order.
abbrev pub apply_all : List Setting → CommitBuilder → CommitBuilder
apply_all [] b = b
apply_all (x ∷ xs) b = apply_all xs (apply x b)

-- What the last setting of each kind says, over what was there before.
abbrev pub last_committer : Option Identity → List Setting → Option Identity
last_committer before [] = before
last_committer before (set_committer c ∷ xs) = last_committer (some c) xs
last_committer before (x ∷ xs) = last_committer before xs

abbrev pub last_author : Option Identity → List Setting → Option Identity
last_author before [] = before
last_author before (set_author c ∷ xs) = last_author (some c) xs
last_author before (x ∷ xs) = last_author before xs

abbrev pub last_message : Option Bytes → List Setting → Option Bytes
last_message before [] = before
last_message before (set_message m ∷ xs) = last_message (some m) xs
last_message before (x ∷ xs) = last_message before xs

abbrev pub last_from : Option ℕ → List Setting → Option ℕ
last_from before [] = before
last_from before (set_from m ∷ xs) = last_from (some m) xs
last_from before (x ∷ xs) = last_from before xs

abbrev pub last_merge : Option ℕ → List Setting → Option ℕ
last_merge before [] = before
last_merge before (set_merge m ∷ xs) = last_merge (some m) xs
last_merge before (x ∷ xs) = last_merge before xs

abbrev pub added : List Setting → List FileCommand
added [] = []
added (add_file_command c ∷ xs) = c ∷ added xs
added (x ∷ xs) = added xs

-- The builder that has these settings.
abbrev pub settled : List Setting → CommitBuilder → CommitBuilder
settled xs b = record {
  branch_ref = b.branch_ref;
  author = last_author b.author xs;
  committer = last_committer b.committer xs;
  message = last_message b.message xs;
  from = last_from b.from xs;
  merge = last_merge b.merge xs;
  commands = b.commands ++ added xs;
}

with_commands : CommitBuilder → List FileCommand → CommitBuilder
with_commands b cs = record {
  branch_ref = b.branch_ref;
  author = b.author;
  committer = b.committer;
  message = b.message;
  from = b.from;
  merge = b.merge;
  commands = cs;
}

commands_ext :
    (b : CommitBuilder) {xs ys : List FileCommand}
    → xs ≡ ys
    → with_commands b xs ≡ with_commands b ys
unfolding with_commands
commands_ext b e = ap (with_commands b) e

apply_all-settled : (xs : List Setting) (b : CommitBuilder) → apply_all xs b ≡ settled xs b
unfolding apply with_commands
apply_all-settled [] b = commands_ext b (sym (append-nil b.commands))
apply_all-settled (set_author c ∷ xs) b = apply_all-settled xs (apply (set_author c) b)
apply_all-settled (set_committer c ∷ xs) b = apply_all-settled xs (apply (set_committer c) b)
apply_all-settled (set_message c ∷ xs) b = apply_all-settled xs (apply (set_message c) b)
apply_all-settled (set_from c ∷ xs) b = apply_all-settled xs (apply (set_from c) b)
apply_all-settled (set_merge c ∷ xs) b = apply_all-settled xs (apply (set_merge c) b)
apply_all-settled (add_file_command c ∷ xs) b =
    apply_all-settled xs (apply (add_file_command c) b)
    ∙ commands_ext (settled xs b) (append_assoc b.commands (c ∷ []) (added xs))

-- A new builder on which settings were made, in any number and order, builds the commit that has the
-- last committer, message, author, parent and merged commit that were set, and the file commands in
-- the order in which they were added; it gives an error exactly if no committer was set, or else no
-- message.
pub build-apply_all :
    (branch_ref : Bytes) (xs : List Setting)
    → build (apply_all xs (new branch_ref)) ≡ (elim (last_committer none xs) [
      | none ↦ err missing_committer
      | some c ↦ (elim (last_message none xs) [
        | none ↦ err missing_commit_message
        | some m ↦ ok (record {
          branch_ref = branch_ref;
          author = last_author none xs;
          committer = c;
          message = m;
          from = last_from none xs;
          merge = last_merge none xs;
          commands = added xs;
        })
      ])
    ])
unfolding build
build-apply_all branch_ref xs = ap build (apply_all-settled xs (new branch_ref))
