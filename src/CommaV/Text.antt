-- ===== src/CommaV/Text.antt =====
-- comma-v/src/parser: the strings of an RCS file, in which `@` is doubled, and the texts of its deltas
-- are read back from their RCS form.
use git_cvs_fast_import.Prelude.{
  [], ◌∷◌, ◌++◌, Bytes, codes, false, ◌==◌, ◌≡◌, ◌≢◌, refl, sym, ap, ◌∙◌, arith, ok, err, ◌>>=◌,
  All, length-append, Bool-cases, inl, inr, append_assoc, append-nil, All-append, if◌then◌else◌,
  ==_iff,
}
use git_cvs_fast_import.Nom.{Nom, Parser}
use git_cvs_fast_import.Nom.Complete.{Combinators, StartsWith}
use git_cvs_fast_import.CommaV.Scalar.{
  at_sign, is_at, extend, string_literal, string_escape, fragment, string,
}

-- The RCS form of a string between its `@`s.
unfoldable pub escape : Bytes → Bytes
escape [] = []
escape (c ∷ s) = let rest = escape s in if c == at_sign then at_sign ∷ at_sign ∷ rest else c ∷ rest

unfoldable pub quote : Bytes → Bytes
unfolding escape
quote s = at_sign ∷ escape s ++ at_sign ∷ []

-- What follows a string does not go on with it.
abbrev pub NoAt : Bytes → Type 0
NoAt s = StartsWith (λ c. c == at_sign) false s

module _ (nom : Nom) (more : Combinators) where
  string_literal-append :
      (taken rest : Bytes)
      → taken ≢ []
      → All (λ c. is_at c ≡ false) taken
      → string_literal nom more (taken ++ at_sign ∷ rest) ≡ ok (at_sign ∷ rest, taken)
  unfolding string_literal
  string_literal-append taken rest some_byte plain =
      more.take_till1-append (is_at) taken (at_sign ∷ rest) some_byte plain refl

  string_literal_at :
      (rest : Bytes) → string_literal nom more (at_sign ∷ rest) ≡ err (at_sign ∷ rest)
  unfolding string_literal
  string_literal_at rest = more.take_till1_none (is_at) (at_sign ∷ rest) refl

  string_escape-append :
      (rest : Bytes) → string_escape nom more (at_sign ∷ at_sign ∷ rest) ≡ ok (rest, at_sign ∷ [])
  unfolding string_escape
  string_escape-append rest =
      more.value_lem Bytes Bytes (codes "@") (nom.tag (codes "@@")) (at_sign ∷ at_sign ∷ rest)
      ∙ rw (nom.tag-append (codes "@@") rest) refl

  string_escape_end :
      (rest : Bytes) → NoAt rest → string_escape nom more (at_sign ∷ rest) ≡ err (at_sign ∷ rest)
  unfolding string_escape
  string_escape_end rest plain =
      more.value_lem Bytes Bytes (codes "@") (nom.tag (codes "@@")) (at_sign ∷ rest)
      ∙ rw (nom.tag_cons_err at_sign (codes "@") rest rest (lone_at rest plain)) refl
    where
      lone_at : (s : Bytes) → NoAt s → nom.tag (codes "@") s ≡ err s
      lone_at [] plain = nom.tag_end at_sign []
      lone_at (c ∷ s) plain = nom.tag_ne at_sign c [] s (λ e. ground (arith, plain, e))

  -- The three kinds of steps of `fold_many0`.
  abbrev fold : Bytes → Parser Bytes
  unfolding fragment
  fold acc = more.fold_many0 Bytes Bytes (fragment nom more) acc extend

  fold_literal :
      (acc taken rest : Bytes)
      → All (λ c. is_at c ≡ false) taken
      → fold acc (taken ++ at_sign ∷ rest) ≡ fold (acc ++ taken) (at_sign ∷ rest)
  unfolding fragment
  fold_literal acc [] rest plain = ap (λ a. fold a (at_sign ∷ rest)) (sym (append-nil acc))
  fold_literal acc (c ∷ taken) rest plain =
      more.fold_many0_step Bytes Bytes (fragment nom more) acc extend
        ((c ∷ taken) ++ at_sign ∷ rest) (at_sign ∷ rest) (c ∷ taken)
        (nom.alt_lem Bytes (string_literal nom more) (string_escape nom more) _
          ∙ rw (string_literal-append (c ∷ taken) rest (λ e. cc) plain) refl)
        (omega (arith, length-append taken (at_sign ∷ rest)))

  fold_escape :
      (acc rest : Bytes) → fold acc (at_sign ∷ at_sign ∷ rest) ≡ fold (acc ++ at_sign ∷ []) rest
  unfolding fragment
  fold_escape acc rest =
      more.fold_many0_step Bytes Bytes (fragment nom more) acc extend (at_sign ∷ at_sign ∷ rest)
        rest (at_sign ∷ [])
        (nom.alt_lem Bytes (string_literal nom more) (string_escape nom more) _
          ∙ rw (string_literal_at (at_sign ∷ rest)) (string_escape-append rest))
        (omega arith)

  fold_end : (acc rest : Bytes) → NoAt rest → fold acc (at_sign ∷ rest) ≡ ok (at_sign ∷ rest, acc)
  unfolding fragment
  fold_end acc rest plain =
      more.fold_many0_end Bytes Bytes (fragment nom more) acc extend (at_sign ∷ rest)
        (at_sign ∷ rest)
        (nom.alt_lem Bytes (string_literal nom more) (string_escape nom more) _
          ∙ rw (string_literal_at rest) (string_escape_end rest plain))

  -- The loop over an escaped string, with the plain bytes `run` before it that are not taken yet.
  fold-escape :
      (acc run s rest : Bytes)
      → All (λ c. is_at c ≡ false) run
      → NoAt rest
      → fold acc (run ++ (escape s ++ at_sign ∷ rest)) ≡ ok (at_sign ∷ rest, acc ++ (run ++ s))
  unfolding escape
  fold-escape acc run [] rest plain after =
      fold_literal acc run rest plain
      ∙ fold_end (acc ++ run) rest after
      ∙ ap (λ l. ok (at_sign ∷ rest, acc ++ l)) (sym (append-nil run))
  fold-escape acc run (c ∷ s) rest plain after = elim (Bool-cases (c == at_sign)) [
    | inl e ↦ rw e (
        fold_literal acc run (at_sign ∷ (escape s ++ at_sign ∷ rest)) plain
        ∙ fold_escape (acc ++ run) (escape s ++ at_sign ∷ rest)
        ∙ fold-escape ((acc ++ run) ++ at_sign ∷ []) [] s rest tt after
        ∙ ap (λ (l : Bytes). ok (at_sign ∷ rest, l))
            (append_assoc (acc ++ run) (at_sign ∷ []) s
              ∙ append_assoc acc run (at_sign ∷ s)
              ∙ ap (λ x. acc ++ (run ++ x ∷ s)) (sym ((==_iff c at_sign).0 e))))
    | inr e ↦ rw e (
        ap (fold acc) (sym (append_assoc run (c ∷ []) (escape s ++ at_sign ∷ rest)))
        ∙ fold-escape acc (run ++ c ∷ []) s rest
            (All-append (λ b. is_at b ≡ false) run (c ∷ []) plain (e, tt)) after
        ∙ ap (λ l. ok (at_sign ∷ rest, acc ++ l)) (append_assoc run (c ∷ []) s))
  ]

  -- A string in its RCS form, with every `@` doubled, is read back whole, whatever follows it but `@`.
  pub string-quote : (s rest : Bytes) → NoAt rest → string nom more (quote s ++ rest) ≡ ok (rest, s)
  unfolding string quote
  string-quote s rest after =
      nom.delimited_lem Bytes Bytes Bytes (nom.tag (codes "@")) _ (nom.tag (codes "@"))
        (quote s ++ rest)
      ∙ rw (nom.tag-append (codes "@") ((escape s ++ at_sign ∷ []) ++ rest)) (
          ap (λ i. fold [] i >>= λ t. nom.tag (codes "@") t.0 >>= λ u. ok (u.0, t.1))
            (append_assoc (escape s) (at_sign ∷ []) rest)
          ∙ rw (fold-escape [] [] s rest tt after) (rw (nom.tag-append (codes "@") rest) refl))
