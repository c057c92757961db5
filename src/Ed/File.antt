-- ===== src/Ed/File.antt =====
-- rcs-ed/src/lib.rs: `File`, and the commands of a script collected line by line in `LineCommands`.
use mathlib.Core.List.{flatten}
use git_cvs_fast_import.Prelude.{
  ℕ, zero, suc, ◌+◌, List, [], ◌∷◌, ◌++◌, Option, none, some, Bytes, newline, leb, if◌then◌else◌,
  length, get_elem?, set, take, drop, replicate, last?, Outcome, ok, err, panic, ◌>>=◌,
}
use git_cvs_fast_import.Ed.Reader.{read_until, pop, is_newline}
use git_cvs_fast_import.Ed.Script.{Command}

pub record File : Type 0 where
  pub lines : List Bytes

pub data Line : Type 0 where
  add : List (List Bytes) → Line
  delete : Line
  keep : Line
  replace : List (List Bytes) → Line

-- The loop of `File::new` over a reader in memory. Each round but the last takes a byte at least.
unfoldable pub read_lines : ℕ → Bytes → Option (List Bytes)
unfolding read_until
read_lines zero r = none
read_lines (suc fuel) r =
    let more = read_lines fuel (read_until r).1 in
    elim (read_until r).0 [
      | [] ↦ some ([] ∷ [])
      | c ∷ line ↦
          if is_newline (last? (c ∷ line))
          then (elim more [ none ↦ none | some lines ↦ some (pop (c ∷ line) ∷ lines) ])
          else some ((c ∷ line) ∷ [])
    ]

unfoldable pub new : Bytes → Option File
unfolding read_lines
new reader = elim (read_lines (suc (length reader)) reader) [
  | none ↦ none
  | some lines ↦ some (record { lines = lines })
]

-- `self.lines.join(&b'\n')`
unfoldable pub join : List Bytes → Bytes
join [] = []
join (l ∷ []) = l
join (l ∷ m ∷ ls) = l ++ newline ∷ join (m ∷ ls)

unfoldable pub as_bytes : File → Bytes
unfolding join
as_bytes f = join f.lines

pub data LineCommandError : Type 0 where
  conflicting_appends : ℕ → LineCommandError

pub record LineCommands : Type 0 where
  pub lines : List Line
  pub prepend : List Bytes

-- What a second command does to a line.
unfoldable pub add_to : ℕ → List Bytes → Line → Outcome LineCommandError Line
add_to position content (Line.add _) = err (conflicting_appends position)
add_to position content Line.delete = ok (Line.replace (content ∷ []))
add_to position content Line.keep = ok (Line.add (content ∷ []))
add_to position content (Line.replace commands) = ok (Line.replace (commands ++ content ∷ []))

-- `lines[position - 1]` panics out of bounds.
unfoldable pub add_at : ℕ → List Bytes → LineCommands → Outcome LineCommandError LineCommands
unfolding add_to
add_at zero content lc = elim lc.prepend [
  | [] ↦ ok (record lc { prepend = content })
  | _ ∷ _ ↦ err (conflicting_appends 0)
]
add_at (suc i) content lc = elim (get_elem? lc.lines i) [
  | none ↦ panic
  | some line ↦ do
    line' ← add_to (suc i) content line
    ok (record lc { lines = set lc.lines i line' })
]

-- `splice` by as many `Line::Delete` panics out of bounds, and `position - 1` at position 0.
unfoldable pub delete_at : ℕ → ℕ → LineCommands → Outcome LineCommandError LineCommands
delete_at zero n lc = panic
delete_at (suc i) n lc =
    if leb (i + n) (length lc.lines)
    then ok
        (record lc { lines = take i lc.lines ++ replicate n Line.delete ++ drop (i + n) lc.lines })
    else panic

unfoldable pub run : LineCommands → Command → Outcome LineCommandError LineCommands
unfolding add_at delete_at
run lc (Command.add position content) = add_at position content lc
run lc (Command.delete position lines) = delete_at position lines lc

unfoldable pub run_all : LineCommands → List Command → Outcome LineCommandError LineCommands
unfolding run
run_all lc [] = ok lc
run_all lc (c ∷ cs) = do lc' ← run lc c; run_all lc' cs

unfoldable pub calculate : ℕ → List Command → Outcome LineCommandError LineCommands
unfolding run_all
calculate n commands = run_all (record { lines = replicate n Line.keep; prepend = [] }) commands

-- What one input line becomes.
unfoldable pub emit : Bytes → Line → List Bytes
unfolding flatten
emit orig (Line.add contents) = orig ∷ flatten contents
emit orig Line.delete = []
emit orig Line.keep = orig ∷ []
emit orig (Line.replace contents) = flatten contents

-- The loop of `LineCommands::apply` over the zipped lines.
unfoldable pub apply_lines : List Bytes → List Bytes → List Line → List Bytes
unfolding emit
apply_lines output (orig ∷ input) (cmd ∷ lines) = apply_lines (output ++ emit orig cmd) input lines
apply_lines output _ _ = output

unfoldable pub apply : File → List Command → Outcome LineCommandError (List Bytes)
unfolding calculate apply_lines
apply f commands = do
  lc ← calculate (length f.lines) commands
  ok (apply_lines lc.prepend f.lines lc.lines)

-- `mem::take` empties the file before the script is run; an error or a panic leaves it empty.
unfoldable pub apply_in_place : File → List Command → File × Outcome LineCommandError (Unit {0})
unfolding apply
apply_in_place f commands = elim (apply f commands) [
  | ok lines ↦ (record { lines = lines }, ok tt)
  | err e ↦ (record { lines = [] }, err e)
  | panic ↦ (record { lines = [] }, panic)
]
