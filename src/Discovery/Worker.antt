-- ===== src/Discovery/Worker.antt =====
-- src/discovery.rs, `Worker`: one RCS file as a whole, and the loop over the paths that are sent to the
-- worker. Reading a file and its metadata, and the text of a path, are parameters.
use git_cvs_fast_import.Prelude.{
  ℕ, List, [], ◌∷◌, ◌++◌, Option, none, some, Bytes, Bool, true, false, if◌then◌else◌, Outcome, ok,
  err, panic, ◌≡◌, refl, sym, ap, ◌∙◌, Bool-cases, inl, inr, append-nil, append_assoc,
}
use git_cvs_fast_import.Prelude.Equality.{◌=?◌, nat_eq, list_eq}
use git_cvs_fast_import.Prelude.Assoc.{
  Assoc, lookup, insert, upsert, lookup-upsert, lookup-insert, or_else,
}
use git_cvs_fast_import.Paths.{FilePath}
use git_cvs_fast_import.Num
use git_cvs_fast_import.Num.{Num, num_eq}
use git_cvs_fast_import.Nom.{Nom}
use git_cvs_fast_import.Nom.Complete.{Combinators}
use git_cvs_fast_import.CommaV
use git_cvs_fast_import.CommaV.Scalar.{Calendar}
use git_cvs_fast_import.CommaV.Parser.{parse}
use git_cvs_fast_import.Patchset.{CommitHeap}
use git_cvs_fast_import.Patchset.Heap.{HashOrder}
use git_cvs_fast_import.Discovery.{Error, Place}
use git_cvs_fast_import.Discovery.Munge.{munge_raw_path, strip_comma_v}
use git_cvs_fast_import.Discovery.Tree.{Run, handle_tree}

-- The maps that `handle_path` makes: the branches, and the tags of each revision.
pub record Symbols : Type 0 where
  pub branches : Assoc Bytes Num
  pub revision_tags : Assoc Num (List Bytes)

-- One round of the loop over the symbols.
unfoldable pub add_symbol : Symbols → Bytes → Num → Symbols
unfolding insert upsert
add_symbol s tag (Num.branch parts) = record s {
  branches = insert tag (Num.branch parts) s.branches;
}
add_symbol s tag (Num.commit parts) = record s {
  revision_tags = upsert (Num.commit parts) [] (λ tags. tags ++ tag ∷ []) s.revision_tags;
}

unfoldable pub add_symbols : Symbols → List (Bytes × Num) → Symbols
unfolding add_symbol
add_symbols s [] = s
add_symbols s ((tag, revision) ∷ symbols) = add_symbols (add_symbol s tag revision) symbols

abbrev pub no_symbols : Symbols
no_symbols = record { branches = []; revision_tags = [] }

-- The branch of the head, under the name that the worker has for it.
unfoldable pub add_head {κ} : {E : Type κ} → Bytes → Option Num → Symbols → Outcome E Symbols
unfolding Num.to_branch insert
add_head head_branch none s = ok s
add_head head_branch (some head) s = elim (Num.to_branch head) [
  | ok branch_num ↦ ok (record s { branches = insert head_branch branch_num s.branches })
  | err _ ↦ panic
  | panic ↦ panic
]

-- What a worker has: `Worker`, without what it shares.
pub record Worker : Type 0 where
  pub prefix : FilePath
  pub head_branch : Bytes
  pub ignore_errors : Bool

-- What the worker asks of the system: the bytes of a file, whether a path is a directory (`none` is an
-- error), and the text of a path.
pub record System : Type 0 where
  pub read : FilePath → Option Bytes
  pub is_dir : FilePath → Option Bool
  pub as_os_str : FilePath → Bytes

module _ (C : CommitHeap ℕ) (nom : Nom) (more : Combinators) (calendar : Calendar) (O : HashOrder)
    (from_utf8_lossy : Bytes → Bytes) (system : System) (limit : ℕ) (worker : Worker) where
  -- What `handle_path` does once the file is parsed.
  unfoldable pub handle_file : ℕ → FilePath → CommaV.File → Place C → Run C
  unfolding add_symbols add_head munge_raw_path handle_tree CommaV.head
  handle_file fuel path cv p =
      let symbols = add_symbols no_symbols (O.order (Bytes × Num) cv.admin.symbols) in
      elim (add_head {E = Error} worker.head_branch cv.admin.head symbols) [
        | err e ↦ some (err (e, p))
        | panic ↦ some panic
        | ok s ↦ (elim (CommaV.head cv) [
          | none ↦ some (err (Error.missing_head path, p))
          | some head_num ↦
              handle_tree C nom O from_utf8_lossy limit
                (record {
                  branches = s.branches;
                  revision_tags = s.revision_tags;
                  real_path = munge_raw_path path worker.prefix;
                })
                cv fuel none head_num p
        ])
      ]

  -- `none` says that the fuel for the file's revisions ran out.
  unfoldable pub handle_path : ℕ → FilePath → Place C → Run C
  unfolding handle_file parse
  handle_path fuel path p = elim (system.read path) [
    | none ↦ some (err (Error.io, p))
    | some bytes ↦ (elim (parse nom more calendar bytes) [
      | ok cv ↦ handle_file fuel path cv p
      | err location ↦ some (err (Error.parse location, p))
      | panic ↦ some panic
    ])
  ]

  -- After a file: with `ignore_errors` an error is only logged.
  abbrev pub after : Run C → (Place C → Run C) → Run C
  after none next = none
  after (some panic) next = some panic
  after (some (ok p)) next = next p
  after (some (err (e, p))) next = if worker.ignore_errors then next p else some (err (e, p))

  -- The loop of `work`, over the paths that come from the channel until it is closed.
  unfoldable pub work : ℕ → List FilePath → Place C → Run C
  unfolding handle_path strip_comma_v
  work fuel [] p = some (ok p)
  work fuel (path ∷ paths) p = elim (system.is_dir path) [
    | none ↦ some (err (Error.io, p))
    | some true ↦ work fuel paths p
    | some false ↦ (elim (strip_comma_v (system.as_os_str path)) [
      | none ↦ work fuel paths p
      | some _ ↦ after (handle_path fuel path p) (work fuel paths)
    ])
  ]

-- The tags of a revision among the symbols, in their order.
abbrev pub tags_at : Num → List (Bytes × Num) → List Bytes
tags_at revision [] = []
tags_at revision ((tag, Num.branch parts) ∷ symbols) = tags_at revision symbols
tags_at revision ((tag, Num.commit parts) ∷ symbols) =
    let rest = tags_at revision symbols in if Num.commit parts =? revision then tag ∷ rest else rest

-- The number of a branch among the symbols: the last one under the name.
abbrev pub branch_named : Bytes → Option Num → List (Bytes × Num) → Option Num
branch_named name before [] = before
branch_named name before ((tag, Num.commit parts) ∷ symbols) = branch_named name before symbols
branch_named name before ((tag, Num.branch parts) ∷ symbols) =
    branch_named name (if tag =? name then some (Num.branch parts) else before) symbols

add_symbols-tags_at :
    (s : Symbols) (symbols : List (Bytes × Num)) (revision : Num)
    → or_else (lookup revision (add_symbols s symbols).revision_tags) []
      ≡ or_else (lookup revision s.revision_tags) [] ++ tags_at revision symbols
unfolding add_symbols add_symbol
add_symbols-tags_at s [] revision = sym (append-nil _)
add_symbols-tags_at s ((tag, Num.branch parts) ∷ symbols) revision =
    add_symbols-tags_at (add_symbol s tag (Num.branch parts)) symbols revision
add_symbols-tags_at s ((tag, Num.commit parts) ∷ symbols) revision =
    add_symbols-tags_at (add_symbol s tag (Num.commit parts)) symbols revision
    ∙ ap (λ found. or_else found [] ++ tags_at revision symbols)
        (lookup-upsert (Num.commit parts) revision [] (λ tags. tags ++ tag ∷ []) s.revision_tags)
    ∙ (elim (Bool-cases (Num.commit parts =? revision)) [
      | inl e ↦ rw e (
          append_assoc (or_else (lookup revision s.revision_tags) []) (tag ∷ [])
            (tags_at revision symbols))
      | inr e ↦ rw e refl
    ])

add_symbols-branch_named :
    (s : Symbols) (symbols : List (Bytes × Num)) (name : Bytes)
    → lookup name (add_symbols s symbols).branches
      ≡ branch_named name (lookup name s.branches) symbols
unfolding add_symbols add_symbol
add_symbols-branch_named s [] name = refl
add_symbols-branch_named s ((tag, Num.commit parts) ∷ symbols) name =
    add_symbols-branch_named (add_symbol s tag (Num.commit parts)) symbols name
add_symbols-branch_named s ((tag, Num.branch parts) ∷ symbols) name =
    add_symbols-branch_named (add_symbol s tag (Num.branch parts)) symbols name
    ∙ ap (λ before. branch_named name before symbols)
        (lookup-insert tag name (Num.branch parts) s.branches)

-- For any symbols of a file in any order: the tags of each revision are the names of the symbols with
-- its number, in their order, and the number of each branch is the last one that a symbol gives its
-- name, if one does.
pub add_symbols_lem :
    (symbols : List (Bytes × Num))
    → ((revision : Num)
        → or_else (lookup revision (add_symbols no_symbols symbols).revision_tags) []
          ≡ tags_at revision symbols)
      × ((name : Bytes)
          → lookup name (add_symbols no_symbols symbols).branches ≡ branch_named name none symbols)
unfolding lookup
add_symbols_lem symbols =
    (add_symbols-tags_at no_symbols symbols, add_symbols-branch_named no_symbols symbols)
