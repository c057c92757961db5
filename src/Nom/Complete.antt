-- ===== src/Nom/Complete.antt =====
-- More of the parser combinators of the crate `nom`: those that comma-v uses besides the ones of `Nom`,
-- with the behaviour that its theorems rest on.
pub mod Concrete
use git_cvs_fast_import.Prelude.{
  ℕ, ◌<◌, List, [], ◌∷◌, ◌++◌, Option, Bytes, Bool, true, false, ◌||◌, ◌==◌, ◌≡◌, ◌≢◌, Outcome, ok,
  err, panic, ◌>>=◌, All, length, newline, leb, ◌&&◌,
}
use git_cvs_fast_import.Decimal.{is_digit}
use git_cvs_fast_import.Nom.{Parser, IResult}

-- The input is at its end or starts with a byte on which the test is as stated.
abbrev pub StartsWith : (ℕ → Bool) → Bool → Bytes → Type 0
StartsWith test is [] = Unit
StartsWith test is (c ∷ s) = test c ≡ is

-- Space, tab, carriage return and newline
abbrev pub is_multispace : ℕ → Bool
is_multispace c = (c == b' ') || ((c == 9) || ((c == 13) || (c == newline)))

abbrev pub is_alphanumeric : ℕ → Bool
is_alphanumeric c = is_digit c || ((leb b'a' c && leb c b'z') || (leb b'A' c && leb c b'Z'))

-- The result of `map_res`'s function: its error is an error of the parser at its input.
abbrev pub with_rest : {B E : Type 0} → Bytes → Bytes → Outcome E B → IResult B
with_rest input rest (ok b) = ok (rest, b)
with_rest input rest (err e) = err input
with_rest input rest panic = panic

pub record Combinators : Type 1 where
  pub take_while : (ℕ → Bool) → Parser Bytes
  pub take_while1 : (ℕ → Bool) → Parser Bytes
  pub take_till1 : (ℕ → Bool) → Parser Bytes
  pub multispace0 : Parser Bytes
  pub multispace1 : Parser Bytes
  pub alphanumeric1 : Parser Bytes
  pub map_res : (A B E : Type 0) → Parser A → (A → Outcome E B) → Parser B
  pub value : (A B : Type 0) → B → Parser A → Parser B
  pub opt : (A : Type 0) → Parser A → Parser (Option A)
  pub many0 : (A : Type 0) → Parser A → Parser (List A)
  pub fold_many0 : (A B : Type 0) → Parser A → B → (B → A → B) → Parser B
  pub preceded : (A B : Type 0) → Parser A → Parser B → Parser B
  pub terminated : (A B : Type 0) → Parser A → Parser B → Parser A
  pub separated_pair : (A B C : Type 0) → Parser A → Parser B → Parser C → Parser (A × C)
  pub permutation6 :
      (A B C D E F : Type 0)
      → Parser A
      → Parser B
      → Parser C
      → Parser D
      → Parser E
      → Parser F
      → Parser (A × (B × (C × (D × (E × F)))))
  pub permutation9 :
      (A B C D E F G H I : Type 0)
      → Parser A
      → Parser B
      → Parser C
      → Parser D
      → Parser E
      → Parser F
      → Parser G
      → Parser H
      → Parser I
      → Parser (A × (B × (C × (D × (E × (F × (G × (H × I))))))))
  pub take_while1-append :
      (test : ℕ → Bool) (taken rest : Bytes)
      → taken ≢ []
      → All (λ c. test c ≡ true) taken
      → StartsWith test false rest
      → take_while1 test (taken ++ rest) ≡ ok (rest, taken)
  pub take_till1-append :
      (test : ℕ → Bool) (taken rest : Bytes)
      → taken ≢ []
      → All (λ c. test c ≡ false) taken
      → StartsWith test true rest
      → take_till1 test (taken ++ rest) ≡ ok (rest, taken)
  pub take_till1_none :
      (test : ℕ → Bool) (input : Bytes)
      → StartsWith test true input
      → take_till1 test input ≡ err input
  pub multispace1-append :
      (taken rest : Bytes)
      → taken ≢ []
      → All (λ c. is_multispace c ≡ true) taken
      → StartsWith is_multispace false rest
      → multispace1 (taken ++ rest) ≡ ok (rest, taken)
  pub alphanumeric1-append :
      (taken rest : Bytes)
      → taken ≢ []
      → All (λ c. is_alphanumeric c ≡ true) taken
      → StartsWith is_alphanumeric false rest
      → alphanumeric1 (taken ++ rest) ≡ ok (rest, taken)
  pub map_res_lem :
      (A B E : Type 0) (p : Parser A) (f : A → Outcome E B) (input : Bytes)
      → map_res A B E p f input ≡ (p input >>= λ r. with_rest input r.0 (f r.1))
  pub value_lem :
      (A B : Type 0) (b : B) (p : Parser A) (input : Bytes)
      → value A B b p input ≡ (p input >>= λ r. ok (r.0, b))
  pub preceded_lem :
      (A B : Type 0) (p : Parser A) (q : Parser B) (input : Bytes)
      → preceded A B p q input ≡ (p input >>= λ r. q r.0)
  pub terminated_lem :
      (A B : Type 0) (p : Parser A) (q : Parser B) (input : Bytes)
      → terminated A B p q input ≡ (p input >>= λ r. q r.0 >>= λ t. ok (t.0, r.1))
  -- A parser that takes something is run again on the rest; an error ends the loop where it began.
  pub fold_many0_step :
      (A B : Type 0) (p : Parser A) (b : B) (f : B → A → B) (input rest : Bytes) (a : A)
      → p input ≡ ok (rest, a)
      → length rest < length input
      → fold_many0 A B p b f input ≡ fold_many0 A B p (f b a) f rest
  pub fold_many0_end :
      (A B : Type 0) (p : Parser A) (b : B) (f : B → A → B) (input e : Bytes)
      → p input ≡ err e
      → fold_many0 A B p b f input ≡ ok (input, b)
