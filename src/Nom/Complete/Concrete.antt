-- ===== src/Nom/Complete/Concrete.antt =====
-- Parsers that have the behaviour that `Combinators` asks for. The permutations take their parts in the
-- given order only.
use git_cvs_fast_import.Prelude.{
  ℕ, zero, suc, ◌<◌, List, [], ◌∷◌, ◌++◌, Option, none, some, Bytes, Bool, true, false, not, ltb,
  ◌≡◌, ◌≢◌, refl, ap, ◌∙◌, arith, ok, err, panic, ◌>>=◌, All, if◌then◌else◌, length, Bool-cases,
  inl, inr,
}
use git_cvs_fast_import.Nom.{Parser, IResult}
use git_cvs_fast_import.Nom.Complete.{
  Combinators, StartsWith, is_multispace, is_alphanumeric, with_rest,
}

-- The longest start on whose bytes the test holds, and the rest.
unfoldable pub span_while : (ℕ → Bool) → Bytes → Bytes × Bytes
span_while test [] = ([], [])
span_while test (c ∷ s) =
    if test c then (let (taken, rest) = span_while test s in (c ∷ taken, rest)) else ([], c ∷ s)

abbrev pub if_some : Bytes → Bytes × Bytes → IResult Bytes
if_some input ([], rest) = err input
if_some input (c ∷ taken, rest) = ok (rest, c ∷ taken)

unfoldable pub run_while : (ℕ → Bool) → Parser Bytes
unfolding span_while
run_while test input = let (taken, rest) = span_while test input in ok (rest, taken)

unfoldable pub run_while1 : (ℕ → Bool) → Parser Bytes
unfolding span_while
run_while1 test input = if_some input (span_while test input)

abbrev pub negated : (ℕ → Bool) → ℕ → Bool
negated test c = not (test c)

span_while-append :
    (test : ℕ → Bool) (taken rest : Bytes)
    → All (λ c. test c ≡ true) taken
    → StartsWith test false rest
    → span_while test (taken ++ rest) ≡ (taken, rest)
unfolding span_while
span_while-append test [] [] h n = refl
span_while-append test [] (c ∷ rest) h n = rw n refl
span_while-append test (d ∷ taken) rest (hd, h) n =
    rw (hd, span_while-append test taken rest h n) refl

pub run_while1-append :
    (test : ℕ → Bool) (taken rest : Bytes)
    → taken ≢ []
    → All (λ c. test c ≡ true) taken
    → StartsWith test false rest
    → run_while1 test (taken ++ rest) ≡ ok (rest, taken)
unfolding run_while1
run_while1-append test [] rest some_byte h n = absurd (some_byte refl)
run_while1-append test (d ∷ taken) rest some_byte h n =
    ap (if_some (d ∷ taken ++ rest)) (span_while-append test (d ∷ taken) rest h n)

pub All-negated :
    (test : ℕ → Bool) (taken : Bytes)
    → All (λ c. test c ≡ false) taken
    → All (λ c. negated test c ≡ true) taken
All-negated test [] h = tt
All-negated test (c ∷ taken) (hc, h) = (ap not hc, All-negated test taken h)

pub StartsWith-negated :
    (test : ℕ → Bool) (rest : Bytes)
    → StartsWith test true rest
    → StartsWith (negated test) false rest
StartsWith-negated test [] h = tt
StartsWith-negated test (c ∷ rest) h = ap not h

pub run_while1_none :
    (test : ℕ → Bool) (input : Bytes)
    → StartsWith test false input
    → run_while1 test input ≡ err input
unfolding run_while1 span_while
run_while1_none test [] h = refl
run_while1_none test (c ∷ s) h = rw h refl

-- The loop of `fold_many0`, which takes one of the fuel for each item; an item that takes nothing is
-- an error.
module _ {A B : Type 0} (p : Parser A) (f : B → A → B) where
  unfoldable pub fold_next : (B → Parser B) → B → Bytes → IResult A → IResult B
  fold_next go b input (ok (rest, a)) =
      let out = go (f b a) rest in if ltb (length rest) (length input) then out else err input
  fold_next go b input (err e) = ok (input, b)
  fold_next go b input panic = panic

  unfoldable pub fold_run : ℕ → B → Parser B
  unfolding fold_next
  fold_run zero b input = ok (input, b)
  fold_run (suc fuel) b input = fold_next (fold_run fuel) b input (p input)

  -- An item takes a byte at least, so that the length of the input is enough.
  unfoldable pub run_fold : B → Parser B
  unfolding fold_run
  run_fold b input = fold_run (suc (length input)) b input

  fold_next-same :
      (go go' : B → Parser B) (b : B) (input : Bytes) (r : IResult A)
      → ((b' : B) (rest : Bytes) → length rest < length input → go b' rest ≡ go' b' rest)
      → fold_next go b input r ≡ fold_next go' b input r
  unfolding fold_next
  fold_next-same go go' b input (ok (rest, a)) same =
      elim (Bool-cases (ltb (length rest) (length input))) [
        | inl e ↦ rw e (same (f b a) rest (ground (arith, e)))
        | inr e ↦ rw e refl
      ]
  fold_next-same go go' b input (err e) same = refl
  fold_next-same go go' b input panic same = refl

  fold_run-enough :
      (m n : ℕ) (b : B) (input : Bytes)
      → length input < m
      → length input < n
      → fold_run m b input ≡ fold_run n b input
  unfolding fold_run
  fold_run-enough zero n b input h h' = absurd (omega arith)
  fold_run-enough (suc m) zero b input h h' = absurd (omega arith)
  fold_run-enough (suc m) (suc n) b input h h' =
      fold_next-same (fold_run m) (fold_run n) b input (p input)
        (λ b' rest less. fold_run-enough m n b' rest (omega arith) (omega arith))

  fold_next_taken :
      (go : B → Parser B) (b : B) (input rest : Bytes) (a : A)
      → length rest < length input
      → fold_next go b input (ok (rest, a)) ≡ go (f b a) rest
  unfolding fold_next
  fold_next_taken go b input rest a less =
      let t : ltb (length rest) (length input) ≡ true = ground (arith, less) in rw t refl

  pub run_fold_step :
      (b : B) (input rest : Bytes) (a : A)
      → p input ≡ ok (rest, a)
      → length rest < length input
      → run_fold b input ≡ run_fold (f b a) rest
  unfolding run_fold fold_run
  run_fold_step b input rest a e less =
      ap (fold_next (fold_run (length input)) b input) e
      ∙ fold_next_taken (fold_run (length input)) b input rest a less
      ∙ fold_run-enough (length input) (suc (length rest)) (f b a) rest less (omega arith)

  pub run_fold_end : (b : B) (input e : Bytes) → p input ≡ err e → run_fold b input ≡ ok (input, b)
  unfolding run_fold fold_next
  run_fold_end b input e h = ap (fold_next (fold_run (length input)) b input) h

abbrev pub opt_of : {A : Type 0} → Bytes → IResult A → IResult (Option A)
opt_of input (ok (rest, a)) = ok (rest, some a)
opt_of input (err e) = ok (input, none)
opt_of input panic = panic

abbrev pub and_then : {A B : Type 0} → Parser A → Parser B → Parser (A × B)
and_then p q input = p input >>= λ r. q r.0 >>= λ t. ok (t.0, (r.1, t.1))

unfoldable pub concrete : Combinators
unfolding run_while run_while1 run_fold
concrete = record {
  take_while = run_while;
  take_while1 = run_while1;
  take_till1 = λ test. run_while1 (negated test);
  multispace0 = run_while is_multispace;
  multispace1 = run_while1 is_multispace;
  alphanumeric1 = run_while1 is_alphanumeric;
  map_res = λ A B E p f input. p input >>= λ r. with_rest input r.0 (f r.1);
  value = λ A B b p input. p input >>= λ r. ok (r.0, b);
  opt = λ A p input. opt_of input (p input);
  many0 = λ A p. run_fold p (λ (l : List A) a. l ++ a ∷ []) [];
  fold_many0 = λ A B p b f. run_fold p f b;
  preceded = λ A B p q input. p input >>= λ r. q r.0;
  terminated = λ A B p q input. p input >>= λ r. q r.0 >>= λ t. ok (t.0, r.1);
  separated_pair =
      λ A B C p q s input. p input >>= λ r. q r.0 >>= λ t. s t.0 >>= λ u. ok (u.0, (r.1, u.1));
  permutation6 =
      λ A B C D E F p q r s t u. and_then p (and_then q (and_then r (and_then s (and_then t u))));
  permutation9 = λ A B C D E F G H I p q r s t u v w x.
      and_then p (
        and_then q (and_then r (and_then s (and_then t (and_then u (and_then v (and_then w x)))))));
  take_while1-append = run_while1-append;
  take_till1-append = λ test taken rest some_byte h n.
      run_while1-append (negated test) taken rest some_byte (All-negated test taken h)
        (StartsWith-negated test rest n);
  take_till1_none =
      λ test input n. run_while1_none (negated test) input (StartsWith-negated test input n);
  multispace1-append = run_while1-append is_multispace;
  alphanumeric1-append = run_while1-append is_alphanumeric;
  map_res_lem = λ A B E p f input. refl;
  value_lem = λ A B b p input. refl;
  preceded_lem = λ A B p q input. refl;
  terminated_lem = λ A B p q input. refl;
  fold_many0_step = λ A B p b f input rest a e less. run_fold_step p f b input rest a e less;
  fold_many0_end = λ A B p b f input e h. run_fold_end p f b input e h;
}
