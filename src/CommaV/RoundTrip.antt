-- ===== src/CommaV/RoundTrip.antt =====
-- comma-v/src/parser/mod.rs: the log and text of a revision are read back from their RCS form.
use git_cvs_fast_import.Prelude.{
  ℕ, List, [], ◌∷◌, ◌++◌, Bytes, codes, newline, true, false, ◌≡◌, ◌≢◌, refl, ◌∙◌, arith, ok, All,
  All-append, All-implies,
}
use git_cvs_fast_import.Decimal.{to_string, to_string-IsDigit, to_string-cons}
use git_cvs_fast_import.Num
use git_cvs_fast_import.Num.{Num, fmt_u64_slice, dot}
use git_cvs_fast_import.Num.Text.{IsNum, from_str-fmt}
use git_cvs_fast_import.Nom.{Nom, Parser}
use git_cvs_fast_import.Nom.Complete.{Combinators, StartsWith, is_multispace}
use git_cvs_fast_import.CommaV.{DeltaText}
use git_cvs_fast_import.CommaV.Scalar.{Calendar, string, num, numlike, is_numlike}
use git_cvs_fast_import.CommaV.Parser.{delta_text}
use git_cvs_fast_import.CommaV.Text.{quote, NoAt, string-quote}

-- The RCS form of a delta's text, with what follows it.
abbrev pub print_delta_text : Num → DeltaText → Bytes → Bytes
unfolding Num.fmt quote
print_delta_text n d rest =
    Num.fmt n
    ++ (newline ∷ codes "log"
        ++ (newline ∷ quote d.log ++ (newline ∷ codes "text" ++ (newline ∷ quote d.text ++ rest))))

abbrev IsNumlike : ℕ → Type 0
IsNumlike c = is_numlike c ≡ true

to_string-IsNumlike : (p : ℕ) → All IsNumlike (to_string p)
to_string-IsNumlike p =
    All-implies (to_string p) (to_string-IsDigit p) (λ c digit. ground (arith, digit))

fmt_u64_slice-IsNumlike : (parts : List ℕ) → All IsNumlike (fmt_u64_slice parts)
unfolding fmt_u64_slice
fmt_u64_slice-IsNumlike [] = tt
fmt_u64_slice-IsNumlike (p ∷ []) = to_string-IsNumlike p
fmt_u64_slice-IsNumlike (p ∷ q ∷ ps) =
    All-append IsNumlike (to_string p) (dot ∷ fmt_u64_slice (q ∷ ps)) (to_string-IsNumlike p)
      (refl, fmt_u64_slice-IsNumlike (q ∷ ps))

append-ne-nil : (s t : Bytes) → s ≢ [] → s ++ t ≢ []
append-ne-nil [] t h e = h refl
append-ne-nil (c ∷ s) t h e = cc

fmt_u64_slice-ne-nil : (p : ℕ) (ps : List ℕ) → fmt_u64_slice (p ∷ ps) ≢ []
unfolding fmt_u64_slice
fmt_u64_slice-ne-nil p [] nil = let (c, s, e) = to_string-cons p in cc (e, nil)
fmt_u64_slice-ne-nil p (q ∷ ps) nil =
    let (c, s, e) = to_string-cons p in
    absurd (append-ne-nil (to_string p) _ (λ none. cc (e, none)) nil)

fmt-IsNumlike : (n : Num) → All IsNumlike (Num.fmt n)
unfolding Num.fmt
fmt-IsNumlike (Num.branch parts) = fmt_u64_slice-IsNumlike parts
fmt-IsNumlike (Num.commit parts) = fmt_u64_slice-IsNumlike parts

fmt-ne-nil : (n : Num) → IsNum n → Num.fmt n ≢ []
unfolding Num.fmt
fmt-ne-nil (Num.branch []) (bot, _) = absurd bot
fmt-ne-nil (Num.branch (p ∷ ps)) h = fmt_u64_slice-ne-nil p ps
fmt-ne-nil (Num.commit []) (some_part, _, _) = absurd (some_part refl)
fmt-ne-nil (Num.commit (p ∷ ps)) h = fmt_u64_slice-ne-nil p ps

module _ (nom : Nom) (more : Combinators) where
  tuple_ok :
      (A B : Type 0) (p : Parser A) (q : Parser B) {input mid rest : Bytes} {a : A} {b : B}
      → p input ≡ ok (mid, a)
      → q mid ≡ ok (rest, b)
      → nom.tuple A B p q input ≡ ok (rest, (a, b))
  tuple_ok A B p q first second = nom.tuple_lem A B p q _ ∙ rw first (rw second refl)

  preceded_ok :
      (A B : Type 0) (p : Parser A) (q : Parser B) {input mid rest : Bytes} {a : A} {b : B}
      → p input ≡ ok (mid, a)
      → q mid ≡ ok (rest, b)
      → more.preceded A B p q input ≡ ok (rest, b)
  preceded_ok A B p q first second = more.preceded_lem A B p q _ ∙ rw first second

  delimited_ok :
      (A B D : Type 0) (p : Parser A) (q : Parser B) (r : Parser D) {input mid late rest : Bytes}
      {a : A} {b : B} {c : D}
      → p input ≡ ok (mid, a)
      → q mid ≡ ok (late, b)
      → r late ≡ ok (rest, c)
      → nom.delimited A B D p q r input ≡ ok (rest, b)
  delimited_ok A B D p q r first second third =
      nom.delimited_lem A B D p q r _ ∙ rw first (rw second (rw third refl))

  num-fmt :
      (n : Num) (rest : Bytes)
      → IsNum n
      → StartsWith is_numlike false rest
      → num nom more (Num.fmt n ++ rest) ≡ ok (rest, n)
  unfolding num numlike
  num-fmt n rest h after =
      more.map_res_lem Bytes Num Num.Error _ Num.from_str (Num.fmt n ++ rest)
      ∙ rw
          (more.take_while1-append is_numlike (Num.fmt n) rest (fmt-ne-nil n h) (fmt-IsNumlike n)
            after)
          (rw (from_str-fmt n h) refl)

  newline_ok :
      (rest : Bytes)
      → StartsWith is_multispace false rest
      → more.multispace1 (newline ∷ rest) ≡ ok (rest, newline ∷ [])
  newline_ok rest after = more.multispace1-append (newline ∷ []) rest (λ e. cc) (refl, tt) after

  -- A revision number with parts from 1 to the largest `u64`, odd in number for a branch and even, but
  -- not none, for a commit, with a log and a text, in their RCS form, is read back whole, whatever follows
  -- but `@`.
  pub delta_text-print_delta_text :
      (calendar : Calendar) (n : Num) (d : DeltaText) (rest : Bytes)
      → IsNum n
      → NoAt rest
      → delta_text nom more calendar (print_delta_text n d rest) ≡ ok (rest, (n, d))
  unfolding delta_text quote print_delta_text
  delta_text-print_delta_text calendar n d rest h after =
      let text_part = newline ∷ codes "text" ++ (newline ∷ quote d.text ++ rest) in
      let log_part = newline ∷ quote d.log ++ text_part in
      nom.map_lem _ (Num × DeltaText) _ _ (print_delta_text n d rest)
      ∙ rw
          (tuple_ok Num _ _ _ (num-fmt n (newline ∷ codes "log" ++ log_part) h refl) (
            tuple_ok Bytes _ _ _
              (preceded_ok Bytes Bytes more.multispace1 (nom.tag (codes "log"))
                (newline_ok (codes "log" ++ log_part) refl) (nom.tag-append (codes "log") log_part))
              (tuple_ok Bytes _ _ _
                (delimited_ok Bytes Bytes Bytes more.multispace1 (string nom more) more.multispace1
                  (newline_ok (quote d.log ++ text_part) refl)
                  (string-quote nom more d.log text_part refl)
                  (newline_ok (codes "text" ++ (newline ∷ quote d.text ++ rest)) refl))
                (tuple_ok Bytes Bytes _ _
                  (nom.tag-append (codes "text") (newline ∷ quote d.text ++ rest))
                  (preceded_ok Bytes Bytes more.multispace1 (string nom more)
                    (newline_ok (quote d.text ++ rest) refl)
                    (string-quote nom more d.text rest after))))))
          refl
