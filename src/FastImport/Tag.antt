-- ===== src/FastImport/Tag.antt =====
-- git-fast-import/src/tag.rs: the `tag` command.
use git_cvs_fast_import.Prelude.{ℕ, ◌++◌, Bytes, codes, length}
use git_cvs_fast_import.Decimal.{to_string}
use git_cvs_fast_import.FastImport.{Command, fmt_mark, line}
use git_cvs_fast_import.FastImport.Identity
use git_cvs_fast_import.FastImport.Identity.{Identity}

pub record Tag : Type 0 where
  pub name : Bytes
  pub from : ℕ
  pub tagger : Identity
  pub message : Bytes

abbrev pub new : Bytes → ℕ → Identity → Bytes → Tag
new name from tagger message = record {
  name = name;
  from = from;
  tagger = tagger;
  message = message;
}

-- `Command for Tag`
unfoldable pub write : Tag → Command
write tag mark =
    line (codes "tag " ++ tag.name)
    ++ (line (codes "mark " ++ fmt_mark mark)
        ++ (line (codes "from " ++ fmt_mark tag.from)
            ++ (line (codes "tagger " ++ Identity.fmt tag.tagger)
                ++ (line (codes "data " ++ to_string (length tag.message)) ++ line tag.message))))
