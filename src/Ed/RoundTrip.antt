-- ===== src/Ed/RoundTrip.antt =====
-- `Script` over the bytes of a reader: the printed script is read back, and reading ends on any bytes.
use git_cvs_fast_import.Prelude.{
  ℕ, zero, suc, ◌<◌, ◌≤◌, ◌≡◌, ◌≢◌, refl, sym, ap, ◌∙◌, List, [], ◌∷◌, ◌++◌, Bytes, none, some,
  Outcome, ok, err, panic, length, arith, All, All-append, append_assoc, append-nil, newline,
  Option-cases, inl, inr,
}
use git_cvs_fast_import.Decimal.{IsDigit, to_string, to_string-IsDigit}
use git_cvs_fast_import.Nom.{Nom}
use git_cvs_fast_import.Ed.Reader.{split_onto}
use git_cvs_fast_import.Ed.Command as Header
use git_cvs_fast_import.Ed.Script
use git_cvs_fast_import.Ed.Script.{Command, Segment, Reader, take_lines}
use git_cvs_fast_import.Ed.Print.{print_all, IsPrintable, header_line, into_command_list-read_at}

abbrev pub IsLine : Bytes → Type 0
IsLine = All (λ c. c ≢ newline)

abbrev pub unlines : List Bytes → Bytes
unlines [] = []
unlines (l ∷ ls) = l ++ newline ∷ unlines ls

split_onto-line :
    (acc l r : Bytes) → IsLine l → split_onto acc (l ++ newline ∷ r) ≡ (acc ++ l) ∷ split_onto [] r
unfolding split_onto
split_onto-line acc [] r h = ap (λ t. t ∷ split_onto [] r) (sym (append-nil acc))
split_onto-line acc (c ∷ l) r (hc, h) =
    ground (arith, split_onto-line (acc ++ c ∷ []) l r h, append_assoc acc (c ∷ []) l)

split_onto-unlines : (ls : List Bytes) → All IsLine ls → split_onto [] (unlines ls) ≡ ls
split_onto-unlines [] h = unfold split_onto in refl
split_onto-unlines (l ∷ ls) (hl, h) =
    split_onto-line [] l (unlines ls) hl ∙ ap (λ t. l ∷ t) (split_onto-unlines ls h)

IsLine-digits : (ds : Bytes) → All IsDigit ds → IsLine ds
IsLine-digits [] h = tt
IsLine-digits (d ∷ ds) (hd, h) = ((ground arith), IsLine-digits ds h)

IsLine-header :
    (letter : ℕ) (position lines : ℕ)
    → letter ≢ newline
    → IsLine (header_line (letter ∷ []) position lines [])
IsLine-header letter position lines h =
    let number = λ (n : ℕ). IsLine-digits (to_string n) (to_string-IsDigit n) in
    (
      h,
      All-append (λ c. c ≢ newline) (to_string position) _ (number position)
          ((omega arith), All-append (λ c. c ≢ newline) (to_string lines) [] (number lines) tt),
    )

-- The lines that an addition puts in hold no newline.
abbrev pub HasLines : Command → Type 0
HasLines (Command.add position content) = All IsLine content
HasLines (Command.delete position lines) = Unit

IsLine-print_all : (cs : List Command) → All HasLines cs → All IsLine (print_all cs)
IsLine-print_all [] h = tt
IsLine-print_all (Command.add position content ∷ cs) (hc, h) = (
  IsLine-header b'a' position (length content) (omega arith),
  All-append IsLine content (print_all cs) hc (IsLine-print_all cs h),
)
IsLine-print_all (Command.delete position lines ∷ cs) (hc, h) =
    (IsLine-header b'd' position lines (omega arith), IsLine-print_all cs h)

module _ (nom : Nom) (from_utf8_lossy : Bytes → Bytes) where
  -- A script printed as `diff -n` prints it, whose numbers fit a `usize` and whose lines hold no
  -- newline, is read back from its bytes.
  pub into_command_list-parse :
      (cs : List Command)
      → All IsPrintable cs
      → All HasLines cs
      → Script.into_command_list nom from_utf8_lossy (Script.parse (unlines (print_all cs)))
        ≡ some (ok cs)
  into_command_list-parse cs fits lines =
      unfold Script.parse in
      rw (split_onto-unlines (print_all cs) (IsLine-print_all cs lines))
        (into_command_list-read_at nom from_utf8_lossy cs fits)

  take_lines-length : (n : ℕ) (r : Reader) → length (take_lines n r).1 ≤ length r
  unfolding take_lines
  take_lines-length zero r = omega arith
  take_lines-length (suc n) [] = omega arith
  take_lines-length (suc n) ((_, Segment.io_error) ∷ r) = omega arith
  take_lines-length (suc n) ((_, Segment.line l) ∷ r) = omega (arith, take_lines-length n r)

  dispatch-length :
      (n : ℕ) (o : Outcome Header.Error Header.Command) (r : Reader)
      → length (Script.dispatch nom from_utf8_lossy n o r).1 ≤ length r
  unfolding Script.dispatch
  dispatch-length n (ok (Header.Command.add position lines)) r = take_lines-length lines r
  dispatch-length n (ok (Header.Command.delete position lines)) r = omega arith
  dispatch-length n (err e) r = omega arith
  dispatch-length n panic r = omega arith

  collect_after :
      (fuel : ℕ) (r rest : Reader) (o : Outcome Script.Error Command)
      → Script.next nom from_utf8_lossy r ≡ some (o, rest)
      → Script.collect nom from_utf8_lossy fuel rest ≢ none
      → Script.collect nom from_utf8_lossy (suc fuel) r ≢ none
  unfolding Script.collect
  collect_after fuel r rest (ok c) e more = ground arith
  collect_after fuel r rest (err f) e more = ground arith
  collect_after fuel r rest panic e more = ground arith

  collect-ne-none :
      (fuel : ℕ) (r : Reader) → length r < fuel → Script.collect nom from_utf8_lossy fuel r ≢ none
  collect-ne-none zero r h = absurd (omega arith)
  collect-ne-none (suc fuel) [] h = unfold Script.collect Script.next in λ e. cc e
  collect-ne-none (suc fuel) ((n, Segment.io_error) ∷ r) h =
      unfold Script.collect Script.next in λ e. cc e
  collect-ne-none (suc fuel) ((n, Segment.line raw) ∷ r) h =
      let parsed = Header.parse nom from_utf8_lossy raw in
      let (o, rest) = Script.dispatch nom from_utf8_lossy n parsed r in
      collect_after fuel ((n, Segment.line raw) ∷ r) rest o (unfold Script.next in refl)
        (collect-ne-none fuel rest (omega (arith, dispatch-length n parsed r)))

  -- On any reader, read errors included, the iterator comes to an end: `into_command_list` has a result.
  pub into_command_list_total :
      (r : Reader)
      → (o : Outcome Script.Error (List Command)) × (Script.into_command_list nom from_utf8_lossy r
          ≡ some o)
  unfolding Script.into_command_list
  into_command_list_total r =
      elim (Option-cases (Script.collect nom from_utf8_lossy (suc (length r)) r)) [
        | inl out_of_fuel ↦ absurd (collect-ne-none (suc (length r)) r (omega arith) out_of_fuel)
        | inr found ↦ found
      ]
