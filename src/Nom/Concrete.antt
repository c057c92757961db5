-- ===== src/Nom/Concrete.antt =====
-- Parsers that have the behaviour that `Nom` asks for.
use git_cvs_fast_import.Prelude.{
  ℕ, [], ◌∷◌, ◌++◌, Bytes, Option, none, some, ◌≡◌, ◌≢◌, refl, ap, ◌==◌, arith, ok, err, ◌>>=◌, All,
  if◌then◌else◌, Option-cases, inl, inr,
}
use git_cvs_fast_import.Decimal.{IsDigit, is_digit}
use git_cvs_fast_import.Nom.{Nom, Parser, IResult, NoDigit, or_else_parse}

unfoldable pub strip : Bytes → Bytes → Option Bytes
strip [] input = some input
strip (c ∷ t) [] = none
strip (c ∷ t) (d ∷ input) = if c == d then strip t input else none

unfoldable pub run_tag : Bytes → Parser Bytes
unfolding strip
run_tag t input = elim (strip t input) [ none ↦ err input | some rest ↦ ok (rest, t) ]

unfoldable pub span : Bytes → Bytes × Bytes
span [] = ([], [])
span (c ∷ s) = if is_digit c then (let (ds, rest) = span s in (c ∷ ds, rest)) else ([], c ∷ s)

abbrev pub if_some : Bytes → Bytes × Bytes → IResult Bytes
if_some input ([], rest) = err input
if_some input (d ∷ ds, rest) = ok (rest, d ∷ ds)

unfoldable pub run_digit1 : Parser Bytes
unfolding span
run_digit1 input = if_some input (span input)

strip-append : (t rest : Bytes) → strip t (t ++ rest) ≡ some rest
unfolding strip
strip-append [] rest = refl
strip-append (c ∷ t) rest = ground (arith, strip-append t rest)

pub run_tag-append : (t rest : Bytes) → run_tag t (t ++ rest) ≡ ok (rest, t)
run_tag-append t rest = unfold run_tag in rw (strip-append t rest, run_tag)

pub run_tag_ne : (c d : ℕ) (t rest : Bytes) → c ≢ d → run_tag (c ∷ t) (d ∷ rest) ≡ err (d ∷ rest)
unfolding run_tag
run_tag_ne c d t rest h = ground arith

pub run_tag_cons_err :
    (c : ℕ) (t rest e : Bytes)
    → run_tag t rest ≡ err e
    → run_tag (c ∷ t) (c ∷ rest) ≡ err (c ∷ rest)
run_tag_cons_err c t rest e h = elim (Option-cases (strip t rest)) [
  | inl gone ↦ unfold run_tag strip in ground (arith, gone)
  | inr (s, found) ↦
      absurd
        (let yes : run_tag t rest ≡ ok (s, t) = unfold run_tag in rw (found, run_tag) refl in cc)
]

pub run_tag_end : (c : ℕ) (t : Bytes) → run_tag (c ∷ t) [] ≡ err []
unfolding run_tag
run_tag_end c t = refl

span-append : (ds rest : Bytes) → All IsDigit ds → NoDigit rest → span (ds ++ rest) ≡ (ds, rest)
unfolding span
span-append [] [] h n = refl
span-append [] (c ∷ rest) h n = rw n
span-append (d ∷ ds) rest (hd, h) n = rw (hd, span-append ds rest h n)

pub run_digit1-append :
    (ds rest : Bytes)
    → ds ≢ []
    → All IsDigit ds
    → NoDigit rest
    → run_digit1 (ds ++ rest) ≡ ok (rest, ds)
run_digit1-append [] rest some_digit h n = absurd (some_digit refl)
run_digit1-append (d ∷ ds) rest some_digit h n =
    unfold run_digit1 in
    ap (λ (p : Bytes × Bytes). if_some (d ∷ ds ++ rest) p) (span-append (d ∷ ds) rest h n)

pub run_digit1_none : (input : Bytes) → NoDigit input → run_digit1 input ≡ err input
unfolding run_digit1
run_digit1_none [] n = refl
run_digit1_none (c ∷ s) n = rw (n, span)

abbrev pub concrete : Nom
concrete = record {
  tag = run_tag;
  digit1 = run_digit1;
  map = λ A B p f input. p input >>= λ r. ok (r.0, f r.1);
  alt = λ A p q input. or_else_parse (p input) (q input);
  delimited = λ A B C p q s input. p input >>= λ r. q r.0 >>= λ t. s t.0 >>= λ u. ok (u.0, t.1);
  tuple = λ A B p q input. p input >>= λ r. q r.0 >>= λ t. ok (t.0, (r.1, t.1));
  tag-append = run_tag-append;
  tag_ne = run_tag_ne;
  tag_cons_err = run_tag_cons_err;
  tag_end = run_tag_end;
  digit1-append = run_digit1-append;
  digit1_none = run_digit1_none;
  map_lem = λ A B p f input. refl;
  alt_lem = λ A p q input. refl;
  delimited_lem = λ A B C p q s input. refl;
  tuple_lem = λ A B p q input. refl;
}
