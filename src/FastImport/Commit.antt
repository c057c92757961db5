-- ===== src/FastImport/Commit.antt =====
-- git-fast-import/src/commit.rs: the `commit` command, its builder and the file commands. A path is
-- the bytes that `Path::display` prints.
use git_cvs_fast_import.Prelude.{
  ℕ, List, [], ◌∷◌, ◌++◌, Option, none, some, Bytes, codes, length, Outcome, ok, err,
}
use git_cvs_fast_import.Decimal.{to_string}
use git_cvs_fast_import.FastImport.{
  Command, Error, missing_committer, missing_commit_message, fmt_mark, line,
}
use git_cvs_fast_import.FastImport.Identity
use git_cvs_fast_import.FastImport.Identity.{Identity}

pub data Mode : Type 0 where
  normal executable symlink : Mode

-- `Display for Mode`
unfoldable pub fmt_mode : Mode → Bytes
fmt_mode normal = codes "100644"
fmt_mode executable = codes "100755"
fmt_mode symlink = codes "120000"

pub data FileCommand : Type 0 where
  modify : (mode : Mode) (mark : ℕ) (path : Bytes) → FileCommand
  delete : (path : Bytes) → FileCommand
  copy : (from to : Bytes) → FileCommand
  rename : (from to : Bytes) → FileCommand
  delete_all : FileCommand

-- `Display for FileCommand`
unfoldable pub fmt_file_command : FileCommand → Bytes
unfolding fmt_mode
fmt_file_command (modify mode mark path) =
    codes "M " ++ (fmt_mode mode ++ (codes " " ++ (fmt_mark mark ++ (codes " " ++ path))))
fmt_file_command (delete path) = codes "D " ++ path
fmt_file_command (copy from to) = codes "C " ++ (from ++ (codes " " ++ to))
fmt_file_command (rename from to) = codes "R " ++ (from ++ (codes " " ++ to))
fmt_file_command delete_all = codes "deleteall"

pub record Commit : Type 0 where
  pub branch_ref : Bytes
  pub author : Option Identity
  pub committer : Identity
  pub message : Bytes
  pub from : Option ℕ
  pub merge : Option ℕ
  pub commands : List FileCommand

-- A line with a mark, if there is one.
abbrev pub mark_line : Bytes → Option ℕ → Bytes
mark_line word none = []
mark_line word (some mark) = line (word ++ fmt_mark mark)

abbrev pub author_line : Option Identity → Bytes
author_line none = []
author_line (some author) = line (codes "author " ++ Identity.fmt author)

unfoldable pub command_lines : List FileCommand → Bytes
unfolding fmt_file_command
command_lines [] = []
command_lines (c ∷ cs) = line (fmt_file_command c) ++ command_lines cs

-- `Command for Commit`
unfoldable pub write : Commit → Command
unfolding command_lines
write commit mark =
    line (codes "commit " ++ commit.branch_ref)
    ++ (line (codes "mark " ++ fmt_mark mark)
        ++ (author_line commit.author
            ++ (line (codes "committer " ++ Identity.fmt commit.committer)
                ++ (line (codes "data " ++ to_string (length commit.message))
                    ++ (line commit.message
                        ++ (mark_line (codes "from ") commit.from
                            ++ (mark_line (codes "merge ") commit.merge
                                ++ command_lines commit.commands)))))))

pub record CommitBuilder : Type 0 where
  pub branch_ref : Bytes
  pub author : Option Identity
  pub committer : Option Identity
  pub message : Option Bytes
  pub from : Option ℕ
  pub merge : Option ℕ
  pub commands : List FileCommand

-- `CommitBuilder::new`
abbrev pub new : Bytes → CommitBuilder
new branch_ref = record {
  branch_ref = branch_ref;
  author = none;
  committer = none;
  message = none;
  from = none;
  merge = none;
  commands = [];
}

-- The builder's `author`, `committer`, `message`, `from`, `merge` and `add_file_command`.
pub data Setting : Type 0 where
  set_author : Identity → Setting
  set_committer : Identity → Setting
  set_message : Bytes → Setting
  set_from : ℕ → Setting
  set_merge : ℕ → Setting
  add_file_command : FileCommand → Setting

unfoldable pub apply : Setting → CommitBuilder → CommitBuilder
apply (set_author a) b = record {
  branch_ref = b.branch_ref;
  author = some a;
  committer = b.committer;
  message = b.message;
  from = b.from;
  merge = b.merge;
  commands = b.commands;
}
apply (set_committer c) b = record {
  branch_ref = b.branch_ref;
  author = b.author;
  committer = some c;
  message = b.message;
  from = b.from;
  merge = b.merge;
  commands = b.commands;
}
apply (set_message m) b = record {
  branch_ref = b.branch_ref;
  author = b.author;
  committer = b.committer;
  message = some m;
  from = b.from;
  merge = b.merge;
  commands = b.commands;
}
apply (set_from m) b = record {
  branch_ref = b.branch_ref;
  author = b.author;
  committer = b.committer;
  message = b.message;
  from = some m;
  merge = b.merge;
  commands = b.commands;
}
apply (set_merge m) b = record {
  branch_ref = b.branch_ref;
  author = b.author;
  committer = b.committer;
  message = b.message;
  from = b.from;
  merge = some m;
  commands = b.commands;
}
apply (add_file_command c) b = record {
  branch_ref = b.branch_ref;
  author = b.author;
  committer = b.committer;
  message = b.message;
  from = b.from;
  merge = b.merge;
  commands = b.commands ++ c ∷ [];
}

-- `CommitBuilder::build`
unfoldable pub build : CommitBuilder → Outcome Error Commit
build b = elim b.committer [
  | none ↦ err missing_committer
  | some committer ↦ (elim b.message [
    | none ↦ err missing_commit_message
    | some message ↦ ok (record {
      branch_ref = b.branch_ref;
      author = b.author;
      committer = committer;
      message = message;
      from = b.from;
      merge = b.merge;
      commands = b.commands;
    })
  ])
]
