-- ===== src/Num/Text.antt =====
-- `FromStr` and `Display` of `Num`.
use mathlib.Core.Path.{subst}
use git_cvs_fast_import.Prelude.{
  ℕ, zero, suc, ◌+◌, ◌-◌, ◌*◌, ◌%◌, ◌≤◌, ◌<◌, ◌≡◌, ◌≢◌, refl, sym, ap, ◌∙◌, List, [], ◌∷◌, ◌++◌,
  Option, none, some, Bytes, ◌==◌, if◌then◌else◌, length, Outcome, ok, err, ◌>>=◌, >>=-eq-ok, arith,
  Bool-cases, All, append_assoc, append-nil, map, inl, inr,
}
use git_cvs_fast_import.Decimal.{
  IsDigit, max_u64, to_string, parse_u64, scan, parse_u64-to_string, to_string-IsDigit,
}
use git_cvs_fast_import.Num.{
  parse_int, Num, branch, commit, Error, dot, split_onto, parse_parts, from_str, fmt_u64_slice, fmt,
}
use git_cvs_fast_import.Num.Contains.{IsBranch, IsCommit}

split_onto-digits :
    (part ds s : Bytes)
    → All IsDigit ds
    → split_onto part (ds ++ dot ∷ s) ≡ (part ++ ds) ∷ split_onto [] s
unfolding split_onto
split_onto-digits part [] s h = ap (λ t. t ∷ split_onto [] s) (sym (append-nil part))
split_onto-digits part (d ∷ ds) s (hd, h) =
    ground (arith, split_onto-digits (part ++ d ∷ []) ds s h, append_assoc part (d ∷ []) ds)

split_onto-last : (part ds : Bytes) → All IsDigit ds → split_onto part ds ≡ (part ++ ds) ∷ []
unfolding split_onto
split_onto-last part [] h = ap (λ t. t ∷ []) (sym (append-nil part))
split_onto-last part (d ∷ ds) (hd, h) =
    ground (arith, split_onto-last (part ++ d ∷ []) ds h, append_assoc part (d ∷ []) ds)

split_onto-fmt_u64_slice :
    (p : ℕ) (ps : List ℕ) → split_onto [] (fmt_u64_slice (p ∷ ps)) ≡ map to_string (p ∷ ps)
unfolding fmt_u64_slice
split_onto-fmt_u64_slice p [] = split_onto-last [] (to_string p) (to_string-IsDigit p)
split_onto-fmt_u64_slice p (q ∷ ps) =
    split_onto-digits [] (to_string p) (fmt_u64_slice (q ∷ ps)) (to_string-IsDigit p)
    ∙ ap (λ t. to_string p ∷ t) (split_onto-fmt_u64_slice q ps)

-- A number of a revision that is no `0` and fits a `u64`.
abbrev pub IsPart : ℕ → Type 0
IsPart p = (0 < p) × (p ≤ max_u64)

parse_parts-to_string : (ps : List ℕ) → All IsPart ps → parse_parts (map to_string ps) ≡ ok ps
unfolding parse_parts
parse_parts-to_string [] h = refl
parse_parts-to_string (zero ∷ ps) (hp, h) = absurd (omega arith)
parse_parts-to_string (suc p ∷ ps) (hp, h) =
    rw (parse_u64-to_string (suc p) hp.1, parse_parts) (rw (parse_parts-to_string ps h))

abbrev pub make : List ℕ → Num
make parts = if length parts % 2 == 0 then commit parts else branch parts

-- The parts, not none of them, are read back from the text, as a commit or a branch by their number.
from_str-fmt_u64_slice :
    (p : ℕ) (ps : List ℕ)
    → All IsPart (p ∷ ps)
    → from_str (fmt_u64_slice (p ∷ ps)) ≡ ok (make (p ∷ ps))
from_str-fmt_u64_slice p ps h =
    unfold from_str in
    rw (split_onto-fmt_u64_slice p ps) (rw (parse_parts-to_string (p ∷ ps) h) (ground arith))

IsBranch-odd : (b : List ℕ) → IsBranch b → length b % 2 ≡ 1
IsBranch-odd [] h = absurd h
IsBranch-odd (b ∷ []) h = omega arith
IsBranch-odd (b ∷ r ∷ bs) h = omega (arith, IsBranch-odd bs h)

IsCommit-even : (c : List ℕ) → IsCommit c → length c % 2 ≡ 0
IsCommit-even [] h = omega arith
IsCommit-even (c ∷ []) h = absurd h
IsCommit-even (c ∷ s ∷ cs) h = omega (arith, IsCommit-even cs h)

-- A revision number that is neither without parts nor of the wrong parity, with parts that are no `0` and
-- fit a `u64`. The commit without parts, which is read from `0`, is left out.
abbrev pub IsNum : Num → Type 0
IsNum (branch parts) = IsBranch parts × All IsPart parts
IsNum (commit parts) = (parts ≢ []) × IsCommit parts × All IsPart parts

-- A revision number with parts from 1 to the largest `u64`, odd in number for a branch and even, but
-- not none, for a commit, is read back from what is displayed.
pub from_str-fmt : (n : Num) → IsNum n → from_str (fmt n) ≡ ok n
from_str-fmt (branch []) h = absurd h.0
from_str-fmt (branch (p ∷ ps)) h =
    unfold fmt in
    from_str-fmt_u64_slice p ps h.1 ∙ (let odd = IsBranch-odd (p ∷ ps) h.0 in ground (arith, odd))
from_str-fmt (commit []) h = absurd (h.0 refl)
from_str-fmt (commit (p ∷ ps)) h =
    unfold fmt in
    from_str-fmt_u64_slice p ps h.2
    ∙ (let even = IsCommit-even (p ∷ ps) h.1 in ground (arith, even))

scan-le : (s : Bytes) (n v : ℕ) → n ≤ max_u64 → scan s n ≡ some v → v ≤ max_u64
unfolding scan
scan-le [] n v h e = ground arith
scan-le (c ∷ s) n v h e = ground (arith, scan-le s (n * 10 + (c - b'0')) v)

parse_u64-le : (s : Bytes) (v : ℕ) → parse_u64 s ≡ some v → v ≤ max_u64
unfolding parse_u64
parse_u64-le [] v e = cc
parse_u64-le (c ∷ []) v e = scan-le (c ∷ []) 0 v (omega arith) e
parse_u64-le (c ∷ d ∷ s) v e =
    ground (arith, scan-le (d ∷ s) 0 v (omega arith), scan-le (c ∷ d ∷ s) 0 v (omega arith))

parse_parts_step :
    (x : Option ℕ) (rest : Outcome Error (List ℕ)) (ps : List ℕ)
    → ((v : ℕ) → x ≡ some v → v ≤ max_u64)
    → ((qs : List ℕ) → rest ≡ ok qs → All IsPart qs)
    → (elim x [
      | none ↦ err parse_int
      | some zero ↦ rest
      | some (suc v) ↦ rest >>= λ vs. ok (suc v ∷ vs)
    ])
      ≡ ok ps
    → All IsPart ps
parse_parts_step none rest ps le k e = cc
parse_parts_step (some zero) rest ps le k e = k ps e
parse_parts_step (some (suc v)) rest ps le k e =
    let (qs, er, eq) = >>=-eq-ok rest (λ vs. ok (suc v ∷ vs)) e in
    let q : suc v ∷ qs ≡ ps = cc in subst (All IsPart) q ((omega arith, le (suc v) refl), k qs er)

parse_parts-IsPart : (parts : List Bytes) (ps : List ℕ) → parse_parts parts ≡ ok ps → All IsPart ps
unfolding parse_parts
parse_parts-IsPart [] ps e = let q : [] ≡ ps = cc in subst (All IsPart) q tt
parse_parts-IsPart (s ∷ parts) ps e =
    parse_parts_step (parse_u64 s) (parse_parts parts) ps (parse_u64-le s)
      (parse_parts-IsPart parts) e

-- A commit has an even number of parts and a branch an odd one, none of them zero.
abbrev pub IsParsed : Num → Type 0
IsParsed (branch parts) = (length parts % 2 ≡ 1) × All IsPart parts
IsParsed (commit parts) = (length parts % 2 ≡ 0) × All IsPart parts

IsParsed-make : (ps : List ℕ) → All IsPart ps → IsParsed (make ps)
IsParsed-make ps h = elim (Bool-cases (length ps % 2 == 0)) [
  | inl even ↦ rw even ((ground arith), h)
  | inr odd ↦ rw odd ((ground arith), h)
]

from_str-make :
    (s : Bytes) (n : Num)
    → from_str s ≡ ok n
    → (ps : List ℕ) × (parse_parts (split_onto [] s) ≡ ok ps) × (make ps ≡ n)
unfolding from_str
from_str-make s n e =
    let (ps, parsed, made) =
      >>=-eq-ok (parse_parts (split_onto [] s))
        (λ parts. if length parts % 2 == 0 then ok (commit parts) else ok (branch parts)) e in
    (ps, parsed, ground (arith, made))

-- Whatever `from_str` accepts is a commit with an even number of parts or a branch with an odd one,
-- and each part is from 1 to the largest `u64`.
pub from_str-IsParsed : (s : Bytes) (n : Num) → from_str s ≡ ok n → IsParsed n
from_str-IsParsed s n e =
    let (ps, parsed, made) = from_str-make s n e in
    subst IsParsed made (IsParsed-make ps (parse_parts-IsPart (split_onto [] s) ps parsed))
