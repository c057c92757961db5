-- ===== src/Nom.antt =====
-- What the program uses of the parser combinators of the crate `nom`, with their documented behaviour.
pub mod Concrete
pub mod Complete
use git_cvs_fast_import.Prelude.{
  ℕ, List, [], ◌∷◌, ◌++◌, Bytes, Bool, true, false, ◌≡◌, ◌≢◌, Outcome, ok, err, ◌>>=◌, All,
}
use git_cvs_fast_import.Decimal.{IsDigit, is_digit}

-- `IResult<&[u8], A>`: the rest of the input and a value, or an error at the input that is left.
abbrev pub IResult : Type 0 → Type 0
IResult A = Outcome Bytes (Bytes × A)

abbrev pub Parser : Type 0 → Type 0
Parser A = Bytes → IResult A

-- `alt`: the first result, or that of the second parser.
abbrev pub or_else_parse : {A : Type 0} → IResult A → IResult A → IResult A
or_else_parse (err e) second = second
or_else_parse first second = first

-- The input starts with no digit.
abbrev pub NoDigit : Bytes → Type 0
NoDigit [] = Unit
NoDigit (c ∷ s) = is_digit c ≡ false

pub record Nom : Type 1 where
  pub tag : Bytes → Parser Bytes
  pub digit1 : Parser Bytes
  pub map : (A B : Type 0) → Parser A → (A → B) → Parser B
  pub alt : (A : Type 0) → Parser A → Parser A → Parser A
  pub delimited : (A B C : Type 0) → Parser A → Parser B → Parser C → Parser B
  pub tuple : (A B : Type 0) → Parser A → Parser B → Parser (A × B)
  pub tag-append : (t rest : Bytes) → tag t (t ++ rest) ≡ ok (rest, t)
  pub tag_ne : (c d : ℕ) (t rest : Bytes) → c ≢ d → tag (c ∷ t) (d ∷ rest) ≡ err (d ∷ rest)
  pub tag_cons_err :
      (c : ℕ) (t rest e : Bytes) → tag t rest ≡ err e → tag (c ∷ t) (c ∷ rest) ≡ err (c ∷ rest)
  pub tag_end : (c : ℕ) (t : Bytes) → tag (c ∷ t) [] ≡ err []
  pub digit1-append :
      (ds rest : Bytes)
      → ds ≢ []
      → All IsDigit ds
      → NoDigit rest
      → digit1 (ds ++ rest) ≡ ok (rest, ds)
  pub digit1_none : (input : Bytes) → NoDigit input → digit1 input ≡ err input
  pub map_lem :
      (A B : Type 0) (p : Parser A) (f : A → B) (input : Bytes)
      → map A B p f input ≡ (p input >>= λ r. ok (r.0, f r.1))
  pub alt_lem :
      (A : Type 0) (p q : Parser A) (input : Bytes)
      → alt A p q input ≡ or_else_parse (p input) (q input)
  pub delimited_lem :
      (A B C : Type 0) (p : Parser A) (q : Parser B) (s : Parser C) (input : Bytes)
      → delimited A B C p q s input ≡ (p input >>= λ r. q r.0 >>= λ t. s t.0 >>= λ u. ok (u.0, t.1))
  pub tuple_lem :
      (A B : Type 0) (p : Parser A) (q : Parser B) (input : Bytes)
      → tuple A B p q input ≡ (p input >>= λ r. q r.0 >>= λ t. ok (t.0, (r.1, t.1)))
