-- ===== src/FastImport.antt =====
-- git-fast-import/src/lib.rs, mark.rs and error.rs: the writer of the git-fast-import stream. What it
-- writes goes to the end of `written`, which is a writer that takes all bytes and returns no error;
-- the marks are `usize`, whose overflow is a panic, as in a build with overflow checks.
pub mod Identity
pub mod Blob
pub mod Commit
pub mod Tag
pub mod Read
pub mod MarkFile
pub mod Build
pub mod Tests
use git_cvs_fast_import.Prelude.{
  ℕ, suc, ◌+◌, List, [], ◌∷◌, ◌++◌, Option, none, some, Bytes, codes, newline, ltb, if◌then◌else◌,
  Outcome, ok, err, panic, ◌>>=◌,
}
use git_cvs_fast_import.Decimal.{to_string, max_u64}

pub data Error : Type 0 where
  io mark_parsing_error missing_committer missing_commit_message : Error

-- `Display for Mark`
abbrev pub fmt_mark : ℕ → Bytes
fmt_mark mark = b':' ∷ to_string mark

-- `writeln!` of a line
abbrev pub line : Bytes → Bytes
line s = s ++ newline ∷ []

pub record Writer : Type 0 where
  pub written : Bytes
  pub next_mark : ℕ

abbrev pub write_all : Bytes → Writer → Writer
write_all s w = record { written = w.written ++ s; next_mark = w.next_mark }

-- `mark + 1` of a `usize`
unfoldable pub increment : ℕ → Outcome Error ℕ
increment n = if ltb n max_u64 then ok (suc n) else panic

-- `send_generic_header`
unfoldable pub send_generic_header : Writer → Writer
send_generic_header w =
    write_all (line (codes "feature date-format=raw")) (write_all (line (codes "feature done")) w)

-- `send_mark_header`, of the bytes of the mark file's path
unfoldable pub send_mark_header : Bytes → Writer → Writer
send_mark_header path w =
    write_all (line (codes "feature export-marks=" ++ path))
      (write_all (line (codes "feature import-marks-if-exists=" ++ path)) w)

-- The first mark, from what `get_last_mark` returned; `none` if the mark file cannot be opened.
unfoldable pub first_mark : Option (Outcome Error (Option ℕ)) → Outcome Error ℕ
unfolding increment
first_mark none = ok 1
first_mark (some last_mark) =
    last_mark >>= λ mark. elim mark [ none ↦ ok 1 | some last ↦ increment last ]

-- `Writer::new`
unfoldable pub new : Bytes → Bytes → Option (Outcome Error (Option ℕ)) → Outcome Error Writer
unfolding first_mark send_generic_header send_mark_header
new written path opened = do
  next ← first_mark opened
  ok (send_mark_header path (send_generic_header (record { written = written; next_mark = next })))

-- `trait Command`: the bytes that `write` writes for the mark.
abbrev pub Command : Type 0
Command = ℕ → Bytes

-- `Writer::command`, and the mark that it returns.
unfoldable pub command : Command → Writer → Outcome Error (ℕ × Writer)
unfolding increment
command c w = do
  next ← increment w.next_mark
  ok (w.next_mark, write_all (c w.next_mark) (record { written = w.written; next_mark = next }))

unfoldable pub checkpoint : Writer → Writer
checkpoint w = write_all (line (codes "checkpoint")) w

unfoldable pub progress : Bytes → Writer → Writer
progress message w = write_all (line (codes "progress " ++ message)) w

unfoldable pub reset : Bytes → Option ℕ → Writer → Writer
reset branch_ref from w = send_from from (write_all (line (codes "reset " ++ branch_ref)) w)
  where
    send_from : Option ℕ → Writer → Writer
    send_from none w = w
    send_from (some mark) w = write_all (line (codes "from " ++ fmt_mark mark)) w

-- `Drop for Writer`: the bytes that the stream ends with.
unfoldable pub close : Writer → Bytes
close w = w.written ++ line (codes "done")

-- Several commands, one after the other, and their marks.
unfoldable pub run : List Command → Writer → Outcome Error (List ℕ × Writer)
unfolding command
run [] w = ok ([], w)
run (c ∷ cs) w = do (mark, w) ← command c w; (marks, w) ← run cs w; ok (mark ∷ marks, w)
