-- ===== src/Ed/Bytes.antt =====
-- `File::new` and `as_bytes`.
use mathlib.Core.List.{cons-ne-nil}
use git_cvs_fast_import.Prelude.{
  ℕ, zero, suc, ◌<◌, ◌≤◌, ◌≡◌, ◌≢◌, refl, sym, ap, ◌∙◌, List, [], ◌∷◌, ◌++◌, some, Bytes, newline,
  true, false, ◌==◌, length, last?, arith, Bool-cases, inl, inr, append_assoc, append-nil,
}
use git_cvs_fast_import.Ed.Reader.{read_until, pop, is_newline}
use git_cvs_fast_import.Ed.File.{File, read_lines, new, join, as_bytes}

-- What `read_until` has taken is put back in front of the rest.
read_until-append : (r : Bytes) → (read_until r).0 ++ (read_until r).1 ≡ r
unfolding read_until
read_until-append [] = refl
read_until-append (c ∷ r) = elim (Bool-cases (c == newline)) [
  | inl nl ↦ rw nl
  | inr other ↦ rw other (ap (λ l. c ∷ l) (read_until-append r))
]

length-read_until : (r : Bytes) → length (read_until r).1 ≤ length r
unfolding read_until
length-read_until [] = omega arith
length-read_until (c ∷ r) = elim (Bool-cases (c == newline)) [
  | inl nl ↦ rw nl (omega arith)
  | inr other ↦ rw other (omega (arith, length-read_until r))
]

length-read_until-cons : (c : ℕ) (r : Bytes) → length (read_until (c ∷ r)).1 ≤ length r
unfolding read_until
length-read_until-cons c r = elim (Bool-cases (c == newline)) [
  | inl nl ↦ rw nl (omega arith)
  | inr other ↦ rw other (length-read_until r)
]

read_until-ne-nil : (c : ℕ) (r : Bytes) → (read_until (c ∷ r)).0 ≢ []
unfolding read_until
read_until-ne-nil c r = elim (Bool-cases (c == newline)) [
  | inl nl ↦ rw nl (cons-ne-nil c [])
  | inr other ↦ rw other (cons-ne-nil c _)
]

-- A line with its newline is the popped line and the newline.
pop-newline : (line : Bytes) → is_newline (last? line) ≡ true → line ≡ pop line ++ newline ∷ []
pop-newline [] h = cc
pop-newline (c ∷ []) h = ground arith
pop-newline (c ∷ d ∷ ds) h = ap (λ l. c ∷ l) (pop-newline (d ∷ ds) h)

-- A line with no newline is read only at the end.
not_last : (c : ℕ) (l : Bytes) → is_newline (last? (c ∷ l)) ≡ false → is_newline (last? l) ≡ false
not_last c [] h = refl
not_last c (d ∷ ds) h = h

read_until-last : (r : Bytes) → is_newline (last? (read_until r).0) ≡ false → (read_until r).1 ≡ []
unfolding read_until
read_until-last [] = λ h. refl
read_until-last (c ∷ r) = elim (Bool-cases (c == newline)) [
  | inl nl ↦ rw nl (λ h. cc (nl, h))
  | inr other ↦ rw other (λ h. read_until-last r (not_last c (read_until r).0 h))
]

join-cons : (l : Bytes) (ls : List Bytes) → ls ≢ [] → join (l ∷ ls) ≡ l ++ newline ∷ join ls
unfolding join
join-cons l [] h = absurd (h refl)
join-cons l (m ∷ ls) h = refl

abbrev Reads : ℕ → Bytes → Type 0
Reads fuel r =
    (lines : List Bytes) × (read_lines fuel r ≡ some lines) × (lines ≢ []) × (join lines ≡ r)

joined_newline :
    (r l : Bytes) (lines : List Bytes)
    → (read_until r).0 ≡ l
    → is_newline (last? l) ≡ true
    → lines ≢ []
    → join lines ≡ (read_until r).1
    → join (pop l ∷ lines) ≡ r
joined_newline r l lines e nl some_line joined =
    join-cons (pop l) lines some_line
    ∙ ap (λ j. pop l ++ newline ∷ j) joined
    ∙ sym (append_assoc (pop l) (newline ∷ []) (read_until r).1)
    ∙ ap (λ m. m ++ (read_until r).1) (sym (pop-newline l nl) ∙ sym e)
    ∙ read_until-append r

joined_end : (r l : Bytes) → (read_until r).0 ≡ l → is_newline (last? l) ≡ false → l ≡ r
joined_end r l e end =
    sym (append-nil l)
    ∙ ap (λ m. l ++ m) (sym (read_until-last r (rw e end)))
    ∙ ap (λ m. m ++ (read_until r).1) (sym e)
    ∙ read_until-append r

-- What a round does with a line that it has read, if the rest is read well.
read_lines_round :
    (fuel : ℕ) (r : Bytes) (c : ℕ) (line : Bytes)
    → (read_until r).0 ≡ c ∷ line
    → Reads fuel (read_until r).1
    → Reads (suc fuel) r
unfolding read_lines
read_lines_round fuel r c line e (lines, more, some_line, joined) =
    elim (Bool-cases (is_newline (last? (c ∷ line)))) [
      | inl nl ↦ (
        pop (c ∷ line) ∷ lines,
        (rw (e, read_lines) (rw (nl, more))),
        cons-ne-nil _ _,
        joined_newline r (c ∷ line) lines e nl some_line joined,
      )
      | inr end ↦ (
        (c ∷ line) ∷ [],
        (rw (e, read_lines) (rw end)),
        cons-ne-nil _ _,
        (unfold join in joined_end r (c ∷ line) e end),
      )
    ]

read_lines-Reads : (fuel : ℕ) (r : Bytes) → length r < fuel → Reads fuel r
read_lines-Reads zero r h = absurd (omega arith)
read_lines-Reads (suc fuel) [] h =
    ([] ∷ [], (unfold read_lines read_until in refl), cons-ne-nil _ _, (unfold join in refl))
read_lines-Reads (suc fuel) (c ∷ r) h =
    go (read_lines-Reads fuel (read_until (c ∷ r)).1 (omega (arith, length-read_until-cons c r)))
      (read_until (c ∷ r)).0 refl
  where
    go :
        Reads fuel (read_until (c ∷ r)).1
        → (line : Bytes) → (read_until (c ∷ r)).0 ≡ line
        → Reads (suc fuel) (c ∷ r)
    go more [] e = absurd (read_until-ne-nil c r e)
    go more (d ∷ line) e = read_lines_round fuel (c ∷ r) d line e more

-- `File::new` ends, on any bytes, and `as_bytes` gives the bytes back: a file with a newline at its
-- end and one without are told apart.
pub as_bytes-new : (reader : Bytes) → (f : File) × (new reader ≡ some f) × (as_bytes f ≡ reader)
unfolding new as_bytes
as_bytes-new reader =
    let (lines, e, some_line, joined) =
      read_lines-Reads (suc (length reader)) reader (omega arith) in
    (record { lines = lines }, rw (e, new), joined)
