-- ===== src/FastImport/MarkFile/LastMark.antt =====
-- git-fast-import/src/mark_file.rs on the lines that git writes: a colon, the number of the mark, a space
-- and the name of the object.
use git_cvs_fast_import.Prelude.{
  ℕ, ◌≤◌, List, [], ◌∷◌, ◌++◌, Option, some, Bytes, codes, true, false, ok, All, ◌≡◌, ◌≢◌, refl,
  arith,
}
use git_cvs_fast_import.Decimal.{
  max_u64, to_string, to_string-IsDigit, to_string-ne-nil, parse_u64-to_string,
}
use git_cvs_fast_import.Nom.{Nom}
use git_cvs_fast_import.Nom.Complete.{Combinators, StartsWith, is_multispace, is_alphanumeric}
use git_cvs_fast_import.FastImport.MarkFile.{mark_from_str, find_line, mark_line, get_last_mark}

abbrev pub IsEmpty : Bytes → Type 0
IsEmpty line = line ≡ []

abbrev pub written_line : ℕ → Bytes → Bytes → Bytes
written_line mark object junk = codes ":" ++ (to_string mark ++ (codes " " ++ (object ++ junk)))

alphanumeric-multispace : (c : ℕ) → is_alphanumeric c ≡ true → is_multispace c ≡ false
alphanumeric-multispace c h = ground (arith, h)

StartsWith-object :
    (object junk : Bytes)
    → object ≢ []
    → All (λ c. is_alphanumeric c ≡ true) object
    → StartsWith is_multispace false (object ++ junk)
StartsWith-object [] junk some_byte h = absurd (some_byte refl)
StartsWith-object (c ∷ object) junk some_byte (hc, h) = alphanumeric-multispace c hc

find_line-blanks :
    (blanks : List Bytes) (c : ℕ) (line : Bytes) (older : List Bytes)
    → All IsEmpty blanks
    → find_line (blanks ++ (c ∷ line) ∷ older) ≡ some (c ∷ line)
unfolding find_line
find_line-blanks [] c line older h = refl
find_line-blanks (blank ∷ blanks) c line older (e, h) =
    rw e (find_line-blanks blanks c line older h)

mark_from_str-to_string : (mark : ℕ) → mark ≤ max_u64 → mark_from_str (to_string mark) ≡ ok mark
unfolding mark_from_str
mark_from_str-to_string mark fits = rw (parse_u64-to_string mark fits, mark_from_str) refl

module _ (nom : Nom) (more : Combinators) where
  mark_line-written :
      (mark : ℕ) (object junk : Bytes)
      → mark ≤ max_u64
      → object ≢ []
      → All (λ c. is_alphanumeric c ≡ true) object
      → StartsWith is_alphanumeric false junk
      → mark_line nom more (written_line mark object junk) ≡ ok (junk, mark)
  unfolding mark_line
  mark_line-written mark object junk fits some_byte h ends =
      let digits : nom.digit1 (to_string mark ++ (codes " " ++ (object ++ junk)))
          ≡ ok (codes " " ++ (object ++ junk), to_string mark) =
        nom.digit1-append (to_string mark) (codes " " ++ (object ++ junk)) (to_string-ne-nil mark)
          (to_string-IsDigit mark) refl in
      let space : more.multispace1 (codes " " ++ (object ++ junk))
          ≡ ok (object ++ junk, codes " ") =
        more.multispace1-append (codes " ") (object ++ junk) (λ nil. cc) (refl, tt)
          (StartsWith-object object junk some_byte h) in
      rw (more.map_res_lem, more.terminated_lem, nom.delimited_lem, nom.tag-append)
        (rw
          (
            digits,
            space,
            more.alphanumeric1-append object junk some_byte h ends,
            mark_from_str-to_string mark fits,
          )
          refl)

  -- If, from the end of the file, only empty lines come before a line with a mark that fits a `u64` and
  -- the name of an object, in letters and digits, with anything else behind it, `get_last_mark` gives
  -- this mark, whatever the older lines are.
  pub get_last_mark-written :
      (rev_lines : Bytes → Option (List Bytes)) (reader : Bytes) (blanks older : List Bytes)
      (mark : ℕ) (object junk : Bytes)
      → rev_lines reader ≡ some (blanks ++ written_line mark object junk ∷ older)
      → All IsEmpty blanks
      → mark ≤ max_u64
      → object ≢ []
      → All (λ c. is_alphanumeric c ≡ true) object
      → StartsWith is_alphanumeric false junk
      → get_last_mark nom more rev_lines reader ≡ ok (some mark)
  unfolding get_last_mark
  get_last_mark-written rev_lines reader blanks older mark object junk e empty fits some_byte h
        ends =
      rw (e, get_last_mark)
        (rw
          (
            find_line-blanks blanks b':' (to_string mark ++ (codes " " ++ (object ++ junk))) older
                empty,
            mark_line-written mark object junk fits some_byte h ends,
            get_last_mark,
          )
          refl)
