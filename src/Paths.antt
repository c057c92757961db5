-- ===== src/Paths.antt =====
-- What the program uses of `std::path`. A path is its components, which is how `std` compares, hashes
-- and takes apart paths: a normal component has no slash, the root directory is `/`, and `.` is kept
-- only as the first component of a relative path.
pub mod Tests
use git_cvs_fast_import.Prelude.{
  ℕ, List, [], ◌∷◌, ◌++◌, Option, none, some, Bytes, codes, Bool, true, false, ◌||◌, if◌then◌else◌,
}
use git_cvs_fast_import.Prelude.Equality.{◌=?◌, nat_eq, list_eq}

abbrev pub FilePath : Type 0
FilePath = List Bytes

abbrev pub root : Bytes
root = codes "/"

abbrev pub dot_dot : Bytes
dot_dot = codes ".."

abbrev pub single_dot : Bytes
single_dot = codes "."

-- The last component and those before it.
unfoldable pub split_last : FilePath → Option (FilePath × Bytes)
split_last [] = none
split_last (c ∷ cs) = elim (split_last cs) [
  | none ↦ some ([], c)
  | some (before, last) ↦ some (c ∷ before, last)
]

-- `Path::parent`: nothing for the empty path and for one that ends in the root.
unfoldable pub parent : FilePath → Option FilePath
unfolding split_last
parent path = elim (split_last path) [
  | none ↦ none
  | some (before, last) ↦ if last =? root then none else some before
]

-- `Path::file_name`: the last component, if it is a normal one.
unfoldable pub file_name : FilePath → Option Bytes
unfolding split_last
file_name path = elim (split_last path) [
  | none ↦ none
  | some (before, last) ↦
      if (last =? root) || ((last =? dot_dot) || (last =? single_dot)) then none else some last
]

-- `Path::ends_with` of one component
unfoldable pub ends_with : FilePath → Bytes → Bool
unfolding split_last
ends_with path c = elim (split_last path) [ none ↦ false | some (before, last) ↦ last =? c ]

-- `Path::strip_prefix`; `none` is its error.
unfoldable pub strip_prefix : FilePath → FilePath → Option FilePath
strip_prefix path [] = some path
strip_prefix [] (p ∷ prefix) = none
strip_prefix (c ∷ path) (p ∷ prefix) =
    let rest = strip_prefix path prefix in if c =? p then rest else none

-- The path of a text with no slash.
abbrev pub from_name : Bytes → FilePath
from_name [] = []
from_name (c ∷ cs) = (c ∷ cs) ∷ []

-- `Path::join` of such a path: `.` adds nothing to a path that has a component.
unfoldable pub join : FilePath → FilePath → FilePath
join [] name = name
join (c ∷ path) name = if name =? (single_dot ∷ []) then c ∷ path else (c ∷ path) ++ name

-- `PathBuf::push`: an absolute path takes the place of what was there.
unfoldable pub push : FilePath → FilePath → FilePath
push path [] = path
push [] (c ∷ cs) = c ∷ cs
push (d ∷ path) (c ∷ cs) =
    if c =? root then c ∷ cs else if c =? single_dot then (d ∷ path) ++ cs else (d ∷ path) ++ c ∷ cs
