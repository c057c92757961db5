-- ===== src/Ed/Command.antt =====
-- rcs-ed/src/command.rs: one command line of a script. `nom` is a parameter, and so is
-- `String::from_utf8_lossy`, which only goes into an error's text.
use git_cvs_fast_import.Prelude.{
  ℕ, [], ◌∷◌, Bytes, codes, Option, none, some, Outcome, ok, err, panic,
}
use git_cvs_fast_import.Decimal.{parse_u64}
use git_cvs_fast_import.Nom.{Nom, Parser}

pub data Command : Type 0 where
  add : (position : ℕ) → (lines : ℕ) → Command
  delete : (position : ℕ) → (lines : ℕ) → Command

pub data Error : Type 0 where
  invalid_command : Bytes → Error
  no_command : Error

-- `parse::<usize>().unwrap()`; `none` is the panic.
unfoldable pub digits_to_usize : Bytes → Option ℕ
digits_to_usize digits = parse_u64 digits

-- A closure of `command`, which calls `digits_to_usize` twice.
unfoldable pub with_numbers : (ℕ → ℕ → Command) → Bytes × Bytes → Option Command
unfolding digits_to_usize
with_numbers make (position, lines) = elim (digits_to_usize position) [
  | none ↦ none
  | some p ↦ (elim (digits_to_usize lines) [ none ↦ none | some l ↦ some (make p l) ])
]

module _ (nom : Nom) where
  -- `tuple((delimited(tag(letter), digit1, tag(" ")), digit1))`
  unfoldable pub numbers : Bytes → Parser (Bytes × Bytes)
  numbers letter =
      nom.tuple Bytes Bytes
        (nom.delimited Bytes Bytes Bytes (nom.tag letter) nom.digit1 (nom.tag (codes " ")))
        nom.digit1

  unfoldable pub command : Parser (Option Command)
  unfolding numbers with_numbers
  command =
      nom.alt (Option Command)
        (nom.map (Bytes × Bytes) (Option Command) (numbers (codes "a")) (with_numbers Command.add))
        (nom.map (Bytes × Bytes) (Option Command) (numbers (codes "d"))
          (with_numbers Command.delete))

  module _ (from_utf8_lossy : Bytes → Bytes) where
    unfoldable pub to_error : Bytes → Error
    to_error [] = no_command
    to_error (c ∷ input) = invalid_command (from_utf8_lossy (c ∷ input))

    -- What is left of the line is dropped.
    unfoldable pub parse : Bytes → Outcome Error Command
    unfolding command to_error
    parse line = elim (command line) [
      | ok (rest, some c) ↦ ok c
      | ok (rest, none) ↦ panic
      | err input ↦ err (to_error input)
      | panic ↦ panic
    ]
