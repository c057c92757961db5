-- ===== src/Ed/Print.antt =====
-- Scripts written as `diff -n` writes them are read back.
use native.Mathlib.Nat.{add-zero, add-suc, suc-add}
use git_cvs_fast_import.Prelude.{
  ℕ, zero, suc, ◌+◌, ◌<◌, ◌≤◌, ◌≡◌, ◌≢◌, refl, sym, ap, List, [], ◌∷◌, ◌++◌, Bytes, codes, none,
  some, ok, err, panic, map, length, arith, All, length-append,
}
use git_cvs_fast_import.Decimal.{
  IsDigit, max_u64, to_string, parse_u64, parse_u64-to_string, to_string-IsDigit, to_string-ne-nil,
}
use git_cvs_fast_import.Nom.{Nom, NoDigit}
use git_cvs_fast_import.Ed.Command as Header
use git_cvs_fast_import.Ed.Script
use git_cvs_fast_import.Ed.Script.{Command, Segment, Reader, take_lines}

-- A command line, with what may stand behind it.
abbrev pub header_line : Bytes → ℕ → ℕ → Bytes → Bytes
header_line letter position lines junk =
    letter ++ (to_string position ++ (codes " " ++ (to_string lines ++ junk)))

module _ (nom : Nom) where
  numbers_lem :
      (letter ds es junk : Bytes)
      → ds ≢ []
      → es ≢ []
      → All IsDigit ds
      → All IsDigit es
      → NoDigit junk
      → Header.numbers nom letter (letter ++ (ds ++ (codes " " ++ (es ++ junk))))
        ≡ ok (junk, (ds, es))
  unfolding Header.numbers
  numbers_lem letter ds es junk hd he digits_d digits_e no_digit = rw nom.tuple_lem (
      rw nom.delimited_lem (
        rw nom.tag-append (
          rw (nom.digit1-append ds (codes " " ++ (es ++ junk)) hd digits_d refl) (
            rw (nom.tag-append (codes " ") (es ++ junk))
              (rw (nom.digit1-append es junk he digits_e no_digit))))))

  -- Another letter, or none, is an error at the start of the line.
  numbers_ne :
      (c d : ℕ) (rest : Bytes) → c ≢ d → Header.numbers nom (c ∷ []) (d ∷ rest) ≡ err (d ∷ rest)
  unfolding Header.numbers
  numbers_ne c d rest h = rw nom.tuple_lem (rw nom.delimited_lem (rw (nom.tag_ne c d [] rest h)))

  numbers_end : (c : ℕ) → Header.numbers nom (c ∷ []) [] ≡ err []
  unfolding Header.numbers
  numbers_end c = rw nom.tuple_lem (rw nom.delimited_lem (rw (nom.tag_end c [])))

  numbers-print :
      (letter : Bytes) (position lines : ℕ) (junk : Bytes)
      → NoDigit junk
      → Header.numbers nom letter (header_line letter position lines junk)
        ≡ ok (junk, (to_string position, to_string lines))
  numbers-print letter position lines junk =
      numbers_lem letter (to_string position) (to_string lines) junk (to_string-ne-nil position)
        (to_string-ne-nil lines) (to_string-IsDigit position) (to_string-IsDigit lines)

  with_numbers-print :
      (make : ℕ → ℕ → Header.Command) (position lines : ℕ)
      → position ≤ max_u64
      → lines ≤ max_u64
      → Header.with_numbers make (to_string position, to_string lines) ≡ some (make position lines)
  unfolding Header.with_numbers Header.digits_to_usize
  with_numbers-print make position lines hp hl =
      rw (parse_u64-to_string position hp, Header.with_numbers) (rw (parse_u64-to_string lines hl))

  module _ (from_utf8_lossy : Bytes → Bytes) where
    -- The first line of an addition whose numbers fit a `usize` is read as the addition, and what
    -- stands behind the second number, if it starts with no digit, is dropped.
    pub parse-add :
        (position lines : ℕ) (junk : Bytes)
        → position ≤ max_u64
        → lines ≤ max_u64
        → NoDigit junk
        → Header.parse nom from_utf8_lossy (header_line (codes "a") position lines junk)
          ≡ ok (Header.Command.add position lines)
    parse-add position lines junk hp hl no_digit =
        let parsed : Header.command nom (header_line (codes "a") position lines junk)
            ≡ ok (junk, some (Header.Command.add position lines)) =
          unfold Header.command in
          rw (nom.alt_lem, nom.map_lem)
            (rw (numbers-print (codes "a") position lines junk no_digit)
              (rw (with_numbers-print Header.Command.add position lines hp hl))) in
        unfold Header.parse in rw (parsed, Header.parse)

    pub parse-delete :
        (position lines : ℕ) (junk : Bytes)
        → position ≤ max_u64
        → lines ≤ max_u64
        → NoDigit junk
        → Header.parse nom from_utf8_lossy (header_line (codes "d") position lines junk)
          ≡ ok (Header.Command.delete position lines)
    parse-delete position lines junk hp hl no_digit =
        let parsed : Header.command nom (header_line (codes "d") position lines junk)
            ≡ ok (junk, some (Header.Command.delete position lines)) =
          unfold Header.command in
          rw (nom.alt_lem, nom.map_lem)
            (rw (numbers_ne b'a' b'd' _ (omega arith), nom.map_lem)
              (rw (numbers-print (codes "d") position lines junk no_digit)
                (rw (with_numbers-print Header.Command.delete position lines hp hl)))) in
        unfold Header.parse in rw (parsed, Header.parse)

    -- An addition whose numbers are of digits, of which the first parse as no `usize`, is a panic and
    -- no error.
    pub parse-overflow :
        (ds es junk : Bytes)
        → ds ≢ []
        → es ≢ []
        → All IsDigit ds
        → All IsDigit es
        → NoDigit junk
        → parse_u64 ds ≡ none
        → Header.parse nom from_utf8_lossy (codes "a" ++ (ds ++ (codes " " ++ (es ++ junk))))
          ≡ panic
    parse-overflow ds es junk hd he digits_d digits_e no_digit big =
        let parsed : Header.command nom (codes "a" ++ (ds ++ (codes " " ++ (es ++ junk))))
            ≡ ok (junk, none) =
          unfold Header.command Header.with_numbers Header.digits_to_usize in
          rw (nom.alt_lem, nom.map_lem)
            (rw (numbers_lem (codes "a") ds es junk hd he digits_d digits_e no_digit)
              (rw (big, Header.with_numbers))) in
        unfold Header.parse in rw (parsed, Header.parse)

    parse_end : Header.parse nom from_utf8_lossy [] ≡ err Header.no_command
    parse_end =
        let failed : Header.command nom [] ≡ err [] =
          unfold Header.command in
          rw (nom.alt_lem, nom.map_lem)
            (rw (numbers_end b'a', nom.map_lem) (rw (numbers_end b'd'))) in
        unfold Header.parse in rw (failed, Header.parse)

    parse_ne :
        (c : ℕ) (rest : Bytes)
        → c ≢ b'a'
        → c ≢ b'd'
        → Header.parse nom from_utf8_lossy (c ∷ rest)
          ≡ err (Header.invalid_command (from_utf8_lossy (c ∷ rest)))
    parse_ne c rest not_a not_d =
        let failed : Header.command nom (c ∷ rest) ≡ err (c ∷ rest) =
          unfold Header.command in
          rw (nom.alt_lem, nom.map_lem)
            (rw (numbers_ne b'a' c rest (λ e. not_a (sym e)), nom.map_lem)
              (rw (numbers_ne b'd' c rest (λ e. not_d (sym e))))) in
        unfold Header.parse in rw (failed, Header.parse)

    -- An empty line has no command, and a line that starts with another letter is invalid as a whole.
    pub parse_errors :
        (Header.parse nom from_utf8_lossy [] ≡ err Header.no_command)
        × ((c : ℕ) (rest : Bytes)
            → c ≢ b'a'
            → c ≢ b'd'
            → Header.parse nom from_utf8_lossy (c ∷ rest)
              ≡ err (Header.invalid_command (from_utf8_lossy (c ∷ rest))))
    parse_errors = (parse_end, parse_ne)

-- The lines of a script, as `diff -n` writes them.
abbrev pub print_command : Command → List Bytes
print_command (Command.add position content) =
    header_line (codes "a") position (length content) [] ∷ content
print_command (Command.delete position lines) = header_line (codes "d") position lines [] ∷ []

abbrev pub print_all : List Command → List Bytes
print_all [] = []
print_all (c ∷ cs) = print_command c ++ print_all cs

-- The numbers fit a `usize`.
abbrev pub IsPrintable : Command → Type 0
IsPrintable (Command.add position content) = (position ≤ max_u64) × (length content ≤ max_u64)
IsPrintable (Command.delete position lines) = (position ≤ max_u64) × (lines ≤ max_u64)

abbrev pub read_at : ℕ → List Bytes → Reader
read_at n ls = Script.enumerate n (map Segment.line ls)

take_lines-read_at :
    (content ls : List Bytes) (n : ℕ)
    → take_lines (length content) (read_at n (content ++ ls))
      ≡ (some content, read_at (n + length content) ls)
unfolding take_lines Script.enumerate
take_lines-read_at [] ls n = rw add-zero
take_lines-read_at (l ∷ content) ls n = rw (take_lines-read_at content ls (suc n), add-suc, suc-add)

length-read_at : (n : ℕ) (ls : List Bytes) → length (read_at n ls) ≡ length ls
unfolding Script.enumerate
length-read_at n [] = refl
length-read_at n (l ∷ ls) = ap suc (length-read_at (suc n) ls)

module _ (nom : Nom) (from_utf8_lossy : Bytes → Bytes) where
  collect_step :
      (fuel : ℕ) (r rest : Reader) (c : Command) (cs : List Command)
      → Script.next nom from_utf8_lossy r ≡ some (ok c, rest)
      → Script.collect nom from_utf8_lossy fuel rest ≡ some (ok cs)
      → Script.collect nom from_utf8_lossy (suc fuel) r ≡ some (ok (c ∷ cs))
  unfolding Script.collect
  collect_step fuel r rest c cs e more = rw (e, Script.collect) (rw more)

  payload_whole :
      (position : ℕ) (content : List Bytes)
      → Script.payload position (length content) (some content)
        ≡ ok (Script.Command.add position content)
  unfolding Script.payload
  payload_whole position content = ground arith

  next-print_command :
      (n : ℕ) (c : Command) (ls : List Bytes)
      → IsPrintable c
      → (m : ℕ) × (Script.next nom from_utf8_lossy (read_at n (print_command c ++ ls))
          ≡ some (ok c, read_at m ls))
  unfolding Script.next Script.dispatch Script.enumerate
  next-print_command n (Command.add position content) ls (hp, hl) = (
    suc n + length content,
    rw (parse-add nom from_utf8_lossy position (length content) [] hp hl tt, Script.dispatch)
        (rw (take_lines-read_at content ls (suc n)) (rw (payload_whole position content))),
  )
  next-print_command n (Command.delete position lines) ls (hp, hl) =
      (suc n, rw (parse-delete nom from_utf8_lossy position lines [] hp hl tt, Script.dispatch))

  collect-print_all :
      (fuel n : ℕ) (cs : List Command)
      → length cs < fuel
      → All IsPrintable cs
      → Script.collect nom from_utf8_lossy fuel (read_at n (print_all cs)) ≡ some (ok cs)
  collect-print_all zero n cs h p = absurd (omega arith)
  collect-print_all (suc fuel) n [] h p = unfold Script.collect Script.next Script.enumerate in refl
  collect-print_all (suc fuel) n (c ∷ cs) h (hc, p) =
      let (m, e) = next-print_command n c (print_all cs) hc in
      collect_step fuel (read_at n (print_all (c ∷ cs))) (read_at m (print_all cs)) c cs e
        (collect-print_all fuel m cs (omega arith) p)

  length-print_all : (cs : List Command) → length cs ≤ length (print_all cs)
  length-print_all [] = omega arith
  length-print_all (Command.add p content ∷ cs) =
      omega (arith, length-print_all cs, length-append content (print_all cs))
  length-print_all (Command.delete p n ∷ cs) = omega (arith, length-print_all cs)

  pub into_command_list-read_at :
      (cs : List Command)
      → All IsPrintable cs
      → Script.into_command_list nom from_utf8_lossy (read_at 0 (print_all cs)) ≡ some (ok cs)
  unfolding Script.into_command_list
  into_command_list-read_at cs p =
      collect-print_all (suc (length (read_at 0 (print_all cs)))) 0 cs
        (omega (arith, length-print_all cs, length-read_at 0 (print_all cs))) p
