-- ===== src/FastImport/Blob.antt =====
-- git-fast-import/src/blob.rs: the `blob` command.
use git_cvs_fast_import.Prelude.{◌++◌, Bytes, codes, length}
use git_cvs_fast_import.Decimal.{to_string}
use git_cvs_fast_import.FastImport.{Command, fmt_mark, line}

pub record Blob : Type 0 where
  pub data_bytes : Bytes

abbrev pub new : Bytes → Blob
new bytes = record { data_bytes = bytes }

-- `Command for Blob`
unfoldable pub write : Blob → Command
write blob mark =
    line (codes "blob")
    ++ (line (codes "mark " ++ fmt_mark mark)
        ++ (line (codes "data " ++ to_string (length blob.data_bytes)) ++ line blob.data_bytes))
