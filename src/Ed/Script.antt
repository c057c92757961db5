-- ===== src/Ed/Script.antt =====
-- rcs-ed/src/script.rs: the iterator over the commands of a script. A reader is the enumerated lines
-- that are left; a line may be a read error.
use git_cvs_fast_import.Prelude.{
  ℕ, zero, suc, ◌+◌, List, [], ◌∷◌, Bytes, Option, none, some, Outcome, ok, err, panic, map, length,
  ltb, ◌==◌, if◌then◌else◌,
}
use git_cvs_fast_import.Nom.{Nom}
use git_cvs_fast_import.Ed.Reader.{split_onto}
use git_cvs_fast_import.Ed.Command as Header

-- `Command` with its payload.
pub data Command : Type 0 where
  add : (position : ℕ) → (content : List Bytes) → Command
  delete : (position : ℕ) → (lines : ℕ) → Command

pub data Error : Type 0 where
  command : (error : Header.Error) → (line : ℕ) → Error
  end_of_file : (have : ℕ) → (want : ℕ) → Error
  io : Error

-- `std::io::Result<Vec<u8>>`
pub data Segment : Type 0 where
  line : Bytes → Segment
  io_error : Segment

abbrev pub Reader : Type 0
Reader = List (ℕ × Segment)

unfoldable pub enumerate : ℕ → List Segment → Reader
enumerate n [] = []
enumerate n (s ∷ r) = (n, s) ∷ enumerate (suc n) r

-- `Script::parse`
unfoldable pub parse : Bytes → Reader
unfolding enumerate split_onto
parse reader = enumerate 0 (map Segment.line (split_onto [] reader))

abbrev with_line : Bytes → Option (List Bytes) → Option (List Bytes)
with_line l none = none
with_line l (some content) = some (l ∷ content)

-- `take(n).map(…).collect::<Result<Vec<_>, _>>()`: it stops behind the first read error, `none`.
unfoldable pub take_lines : ℕ → Reader → Option (List Bytes) × Reader
take_lines zero r = (some [], r)
take_lines (suc n) [] = (some [], [])
take_lines (suc n) ((_, Segment.io_error) ∷ r) = (none, r)
take_lines (suc n) ((_, Segment.line l) ∷ r) =
    let (content, rest) = take_lines n r in (with_line l content, rest)

-- `have == want`, `have < want` and the panic
unfoldable pub payload : ℕ → ℕ → Option (List Bytes) → Outcome Error Command
payload position lines none = err io
payload position lines (some content) =
    if length content == lines
    then ok (Command.add position content)
    else if ltb (length content) lines
    then err (end_of_file (length content) lines)
    else panic

module _ (nom : Nom) (from_utf8_lossy : Bytes → Bytes) where
  -- What `next` does once a command line is parsed.
  unfoldable pub dispatch :
      ℕ → Outcome Header.Error Header.Command → Reader → Outcome Error Command × Reader
  dispatch n (ok (Header.Command.add position lines)) r =
      let (content, rest) = take_lines lines r in (payload position lines content, rest)
  dispatch n (ok (Header.Command.delete position lines)) r = (ok (Command.delete position lines), r)
  dispatch n (err e) r = (err (command e (n + 1)), r)
  dispatch n panic r = (panic, r)

  unfoldable pub next : Reader → Option (Outcome Error Command × Reader)
  next [] = none
  next ((n, Segment.io_error) ∷ r) = some (err io, r)
  next ((n, Segment.line raw) ∷ r) = some (dispatch n (Header.parse nom from_utf8_lossy raw) r)

  -- `into_iter().collect()`: it stops at the first error. The fuel bounds the calls of `next`, and
  -- `none` says that it ran out.
  unfoldable pub collect : ℕ → Reader → Option (Outcome Error (List Command))
  collect zero r = none
  collect (suc fuel) r = elim (next r) [
    | none ↦ some (ok [])
    | some (ok c, rest) ↦ (elim (collect fuel rest) [
      | none ↦ none
      | some (ok cs) ↦ some (ok (c ∷ cs))
      | some (err e) ↦ some (err e)
      | some panic ↦ some panic
    ])
    | some (err e, rest) ↦ some (err e)
    | some (panic, rest) ↦ some panic
  ]

  unfoldable pub into_command_list : Reader → Option (Outcome Error (List Command))
  unfolding collect
  into_command_list r = collect (suc (length r)) r
