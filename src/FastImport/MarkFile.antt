-- ===== src/FastImport/MarkFile.antt =====
-- git-fast-import/src/mark_file.rs: the last mark of a mark file. The lines of a file from the last to
-- the first, by the crate `rev_lines`, are a parameter; `none` is an error of reading.
pub mod LastMark
use git_cvs_fast_import.Prelude.{
  ℕ, List, [], ◌∷◌, Option, none, some, Bytes, codes, Outcome, ok, err, panic,
}
use git_cvs_fast_import.Decimal.{parse_u64}
use git_cvs_fast_import.Nom.{Nom, Parser, IResult}
use git_cvs_fast_import.Nom.Complete.{Combinators}
use git_cvs_fast_import.FastImport.{Error, io, mark_parsing_error}

-- `Mark::from_str`
unfoldable pub mark_from_str : Bytes → Outcome (Unit {0}) ℕ
unfolding parse_u64
mark_from_str raw = elim (parse_u64 raw) [ none ↦ err tt | some mark ↦ ok mark ]

-- `find(|line| !line.is_empty())`
unfoldable pub find_line : List Bytes → Option Bytes
find_line [] = none
find_line ([] ∷ lines) = find_line lines
find_line ((c ∷ line) ∷ lines) = some (c ∷ line)

-- `Finish::finish` and what is made of its result
abbrev pub finish_mark : IResult ℕ → Outcome Error (Option ℕ)
finish_mark (ok (rest, mark)) = ok (some mark)
finish_mark (err e) = err mark_parsing_error
finish_mark panic = panic

module _ (nom : Nom) (more : Combinators) where
  unfoldable pub mark_line : Parser ℕ
  unfolding mark_from_str
  mark_line =
      more.map_res Bytes ℕ (Unit {0})
        (more.terminated Bytes Bytes
          (nom.delimited Bytes Bytes Bytes (nom.tag (codes ":")) nom.digit1 more.multispace1)
          more.alphanumeric1)
        mark_from_str

  unfoldable pub get_last_mark : (Bytes → Option (List Bytes)) → Bytes → Outcome Error (Option ℕ)
  unfolding find_line mark_line
  get_last_mark rev_lines reader = elim (rev_lines reader) [
    | none ↦ err io
    | some lines ↦ (elim (find_line lines) [
      | none ↦ ok none
      | some line ↦ finish_mark (mark_line line)
    ])
  ]
