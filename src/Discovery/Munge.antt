-- ===== src/Discovery/Munge.antt =====
-- src/discovery.rs, `munge_raw_path`: the path of a file in the repository that is imported.
use git_cvs_fast_import.Prelude.{
  ℕ, [], ◌∷◌, ◌++◌, Option, none, some, Bytes, codes, Bool, true, false, if◌then◌else◌, ◌||◌,
  append_assoc, sym, ◌≡◌, ◌≢◌, refl, arith, Bool-cases, inl, inr, ap, ◌∙◌,
}
use git_cvs_fast_import.Prelude.Equality.{◌=?◌, =?_refl, nat_eq, list_eq, list_beq_iff}
use git_cvs_fast_import.Prelude.Assoc.{or_else}
use git_cvs_fast_import.Paths.{
  FilePath, root, dot_dot, single_dot, split_last, parent, file_name, ends_with, strip_prefix,
  from_name, join,
}

abbrev pub attic : Bytes
attic = codes "Attic"

abbrev pub comma_v : Bytes
comma_v = codes ",v"

-- `strip_suffix(b",v")` of a byte slice
unfoldable pub strip_comma_v : Bytes → Option Bytes
strip_comma_v [] = none
strip_comma_v (c ∷ cs) =
    let rest = strip_comma_v cs in
    if (c ∷ cs) =? comma_v then some [] else elim rest [ none ↦ none | some s ↦ some (c ∷ s) ]

unfoldable pub strip_comma_v_suffix : Bytes → Option FilePath
unfolding strip_comma_v
strip_comma_v_suffix file = elim (strip_comma_v file) [
  | none ↦ none
  | some stripped ↦ some (from_name stripped)
]

unfoldable pub strip_attic_suffix : FilePath → Option FilePath
unfolding parent ends_with
strip_attic_suffix path = elim (parent path) [
  | none ↦ none
  | some dir ↦ if ends_with dir attic then parent dir else some dir
]

unfoldable pub munge_unprefixed : FilePath → FilePath
unfolding file_name strip_comma_v_suffix strip_attic_suffix join
munge_unprefixed unprefixed = elim (file_name unprefixed) [
  | none ↦ unprefixed
  | some input_file ↦
      let file = or_else (strip_comma_v_suffix input_file) (from_name input_file) in
      (elim (strip_attic_suffix unprefixed) [
        | none ↦ from_name input_file
        | some path ↦ join path file
      ])
]

unfoldable pub munge_raw_path : FilePath → FilePath → FilePath
unfolding strip_prefix munge_unprefixed
munge_raw_path input prefix = munge_unprefixed (or_else (strip_prefix input prefix) input)

strip_prefix-append : (prefix path : FilePath) → strip_prefix (prefix ++ path) prefix ≡ some path
unfolding strip_prefix
strip_prefix-append [] path = refl
strip_prefix-append (c ∷ prefix) path = rw (=?_refl c) (strip_prefix-append prefix path)

split_last-snoc : (dir : FilePath) (c : Bytes) → split_last (dir ++ c ∷ []) ≡ some (dir, c)
unfolding split_last
split_last-snoc [] c = refl
split_last-snoc (d ∷ dir) c = rw (split_last-snoc dir c) refl

longer_text : (c : ℕ) (name : Bytes) → ((c ∷ name ++ comma_v) =? comma_v) ≡ false
longer_text c [] = ground arith
longer_text c (d ∷ []) = ground arith
longer_text c (d ∷ e ∷ name) = ground arith

strip_comma_v-append : (name : Bytes) → strip_comma_v (name ++ comma_v) ≡ some name
unfolding strip_comma_v
strip_comma_v-append [] = refl
strip_comma_v-append (c ∷ name) = rw (longer_text c name, strip_comma_v-append name) refl

strip_comma_v_suffix-append :
    (name : Bytes) → strip_comma_v_suffix (name ++ comma_v) ≡ some (from_name name)
unfolding strip_comma_v_suffix
strip_comma_v_suffix-append name = rw (strip_comma_v-append name, strip_comma_v_suffix) refl

-- A name with `,v` behind it is neither the root nor one or two dots.
abbrev is_special : Bytes → Bool
is_special c = (c =? root) || ((c =? dot_dot) || (c =? single_dot))

is_special-comma_v : (name : Bytes) → is_special (name ++ comma_v) ≡ false
is_special-comma_v [] = refl
is_special-comma_v (c ∷ []) = ground arith
is_special-comma_v (c ∷ d ∷ []) = ground arith
is_special-comma_v (c ∷ d ∷ e ∷ name) = ground arith

root-comma_v : (name : Bytes) → ((name ++ comma_v) =? root) ≡ false
root-comma_v [] = refl
root-comma_v (c ∷ []) = ground arith
root-comma_v (c ∷ d ∷ name) = ground arith

file_name-snoc :
    (dir : FilePath) (c : Bytes) → is_special c ≡ false → file_name (dir ++ c ∷ []) ≡ some c
unfolding file_name
file_name-snoc dir c h = rw (split_last-snoc dir c, file_name) (rw h refl)

parent-snoc : (dir : FilePath) (c : Bytes) → (c =? root) ≡ false → parent (dir ++ c ∷ []) ≡ some dir
unfolding parent
parent-snoc dir c h = rw (split_last-snoc dir c, parent) (rw h refl)

ends_with-snoc : (dir : FilePath) (c : Bytes) → ends_with (dir ++ c ∷ []) c ≡ true
unfolding ends_with
ends_with-snoc dir c = rw (split_last-snoc dir c, ends_with) (=?_refl c)

strip_attic_suffix-attic :
    (dir : FilePath) (name : Bytes)
    → strip_attic_suffix ((dir ++ attic ∷ []) ++ (name ++ comma_v) ∷ []) ≡ some dir
unfolding strip_attic_suffix ends_with
strip_attic_suffix-attic dir name =
    rw (parent-snoc (dir ++ attic ∷ []) (name ++ comma_v) (root-comma_v name), strip_attic_suffix)
      (rw (ends_with-snoc dir attic) (parent-snoc dir attic refl))

strip_attic_suffix-other :
    (dir : FilePath) (name : Bytes)
    → ends_with dir attic ≡ false
    → strip_attic_suffix (dir ++ (name ++ comma_v) ∷ []) ≡ some dir
unfolding strip_attic_suffix
strip_attic_suffix-other dir name h =
    rw (parent-snoc dir (name ++ comma_v) (root-comma_v name), strip_attic_suffix) (rw h refl)

not_single_dot : (name : Bytes) → name ≢ single_dot → ((name ∷ []) =? (single_dot ∷ [])) ≡ false
not_single_dot name h = elim (Bool-cases ((name ∷ []) =? (single_dot ∷ []))) [
  | inl e ↦
      let same : name ∷ [] ≡ single_dot ∷ [] = (list_beq_iff (name ∷ []) (single_dot ∷ [])).0 e in
      absurd (h cc)
  | inr e ↦ e
]

join_name :
    (dir : FilePath) (name : Bytes)
    → name ≢ []
    → name ≢ single_dot
    → join dir (from_name name) ≡ dir ++ name ∷ []
unfolding join
join_name dir [] h h' = absurd (h refl)
join_name [] (c ∷ name) h h' = refl
join_name (d ∷ dir) (c ∷ name) h h' = rw (not_single_dot (c ∷ name) h') refl

munge_unprefixed_name :
    (path dir : FilePath) (name : Bytes)
    → name ≢ []
    → name ≢ single_dot
    → file_name path ≡ some (name ++ comma_v)
    → strip_attic_suffix path ≡ some dir
    → munge_unprefixed path ≡ dir ++ name ∷ []
unfolding munge_unprefixed
munge_unprefixed_name path dir name h h' named stripped =
    rw (named, munge_unprefixed)
      (rw stripped (rw (strip_comma_v_suffix-append name) (join_name dir name h h')))

munge_raw_path_name :
    (prefix path dir : FilePath) (name : Bytes)
    → name ≢ []
    → name ≢ single_dot
    → file_name path ≡ some (name ++ comma_v)
    → strip_attic_suffix path ≡ some dir
    → munge_raw_path (prefix ++ path) prefix ≡ dir ++ name ∷ []
unfolding munge_raw_path
munge_raw_path_name prefix path dir name h h' named stripped =
    rw (strip_prefix-append prefix path) (munge_unprefixed_name path dir name h h' named stripped)

-- For any prefix, any directory whose last component is not `Attic`, and any name that is neither
-- empty nor a dot: the file with this name and `,v` behind it, in this directory below the prefix or in
-- its `Attic`, has in either place the same path in the repository, the directory with the name.
pub munge_raw_path-attic :
    (prefix dir : FilePath) (name : Bytes)
    → ends_with dir attic ≡ false
    → name ≢ []
    → name ≢ single_dot
    → (munge_raw_path (prefix ++ (dir ++ (name ++ comma_v) ∷ [])) prefix ≡ dir ++ name ∷ [])
      × (munge_raw_path (prefix ++ (dir ++ attic ∷ (name ++ comma_v) ∷ [])) prefix
          ≡ dir ++ name ∷ [])
munge_raw_path-attic prefix dir name outside h h' = (
  munge_raw_path_name prefix (dir ++ (name ++ comma_v) ∷ []) dir name h h'
      (file_name-snoc dir (name ++ comma_v) (is_special-comma_v name))
      (strip_attic_suffix-other dir name outside),
  ap (λ path. munge_raw_path (prefix ++ path) prefix)
        (sym (append_assoc dir (attic ∷ []) ((name ++ comma_v) ∷ [])))
      ∙ munge_raw_path_name prefix ((dir ++ attic ∷ []) ++ (name ++ comma_v) ∷ []) dir name h h'
          (file_name-snoc (dir ++ attic ∷ []) (name ++ comma_v) (is_special-comma_v name))
          (strip_attic_suffix-attic dir name),
)
