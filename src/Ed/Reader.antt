-- ===== src/Ed/Reader.antt =====
-- What rcs-ed uses of `std::io::BufRead`: `read_until`, and `split` over a reader in memory.
use git_cvs_fast_import.Prelude.{
  ℕ, List, [], ◌∷◌, ◌++◌, Option, none, some, Bytes, newline, Bool, true, false, ◌==◌,
  if◌then◌else◌,
}

-- `read_until(b'\n')`: the bytes up to and with the newline, or all of them, and the rest.
unfoldable pub read_until : Bytes → Bytes × Bytes
read_until [] = ([], [])
read_until (c ∷ r) =
    if c == newline then (c ∷ [], r) else let (line, rest) = read_until r in (c ∷ line, rest)

-- `Vec::pop`
abbrev pub pop : Bytes → Bytes
pop [] = []
pop (c ∷ []) = []
pop (c ∷ d ∷ ds) = c ∷ pop (d ∷ ds)

abbrev pub is_newline : Option ℕ → Bool
is_newline none = false
is_newline (some c) = c == newline

-- `split(b'\n')`: the lines without their newlines; behind a last newline there is no line.
unfoldable pub split_onto : Bytes → Bytes → List Bytes
split_onto [] [] = []
split_onto (d ∷ line) [] = (d ∷ line) ∷ []
split_onto line (c ∷ r) = elim (c == newline) [
  | true ↦ line ∷ split_onto [] r
  | false ↦ split_onto (line ++ c ∷ []) r
]
