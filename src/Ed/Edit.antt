-- ===== src/Ed/Edit.antt =====
-- What applying a script means: an editor that goes through the file once, from its start to its
-- end. `LineCommands` collects the commands first, and gives the same lines.
pub mod Apply
use mathlib.Core.List.{flatten}
use mathlib.Core.Path.{subst}
use git_cvs_fast_import.Prelude.{
  ℕ, zero, suc, ◌+◌, ◌-◌, ◌<◌, ◌≤◌, ◌≡◌, refl, sym, ap, ◌∙◌, List, [], ◌∷◌, ◌++◌, Option, none,
  some, Bytes, true, false, Bool, leb, if◌then◌else◌, length, last?, All, arith, Bool-cases, inl,
  inr, append_assoc, append-nil, ◌⊎◌, Outcome, ok, err, panic, ◌>>=◌, get_elem?, set, take, drop,
  replicate, length-append, length-replicate, length-take, length-drop, take-append-drop,
  take-append, drop-append_add, drop-replicate, replicate-add, replicate_snoc, drop-drop,
  get_elem?_snoc, set_snoc, list_snoc,
}
use git_cvs_fast_import.Ed.Script.{Command}
use git_cvs_fast_import.Ed.File.{
  File, Line, LineCommandError, LineCommands, add_to, add_at, delete_at, run, run_all, calculate,
  emit, apply_lines, apply,
}

-- The editor has copied or dropped the first `k` lines, and `rest` is what follows.
unfoldable pub edit : ℕ → List Command → List Bytes → List Bytes
edit k [] rest = rest
edit k (Command.add position content ∷ cs) rest =
    take (position - k) rest ++ content ++ edit position cs (drop (position - k) rest)
edit k (Command.delete position lines ∷ cs) rest =
    take (position - 1 - k) rest
    ++ edit (position - 1 + lines) cs (drop (position - 1 - k + lines) rest)

-- The commands go forward through a file of `n` lines, as `diff -n` writes them. Two additions at one
-- line need a deletion between them: `open` says whether the last command was no addition.
abbrev pub InOrder : ℕ → Bool → ℕ → List Command → Type 0
InOrder k open_line n [] = Unit
InOrder k open_line n (Command.add position content ∷ cs) =
    (k ≤ position)
    × (position ≤ n)
    × (position ≡ k → open_line ≡ true)
    × InOrder position false n cs
InOrder k open_line n (Command.delete position lines ∷ cs) =
    (k < position)
    × (position + lines ≤ n + 1)
    × (0 < lines)
    × InOrder (position - 1 + lines) true n cs

-- The output of the lines seen so far.
zip_emit : List Bytes → List Line → List Bytes
zip_emit (orig ∷ input) (cmd ∷ lines) = emit orig cmd ++ zip_emit input lines
zip_emit _ _ = []

apply_lines-zip_emit :
    (out input : List Bytes) (lines : List Line)
    → apply_lines out input lines ≡ out ++ zip_emit input lines
unfolding apply_lines zip_emit
apply_lines-zip_emit out [] lines = sym (append-nil out)
apply_lines-zip_emit out (o ∷ input) [] = sym (append-nil out)
apply_lines-zip_emit out (o ∷ input) (l ∷ lines) =
    apply_lines-zip_emit (out ++ emit o l) input lines
    ∙ append_assoc out (emit o l) (zip_emit input lines)

zip_emit-append :
    (a b : List Bytes) (x y : List Line)
    → length a ≡ length x
    → zip_emit (a ++ b) (x ++ y) ≡ zip_emit a x ++ zip_emit b y
unfolding zip_emit
zip_emit-append [] b [] y h = refl
zip_emit-append [] b (l ∷ x) y h = absurd (omega arith)
zip_emit-append (o ∷ a) b [] y h = absurd (omega arith)
zip_emit-append (o ∷ a) b (l ∷ x) y h =
    ap (λ t. emit o l ++ t) (zip_emit-append a b x y (omega arith))
    ∙ sym (append_assoc (emit o l) (zip_emit a x) (zip_emit b y))

zip_emit-keep : (a : List Bytes) → zip_emit a (replicate (length a) Line.keep) ≡ a
unfolding zip_emit emit
zip_emit-keep [] = refl
zip_emit-keep (o ∷ a) = ap (λ t. o ∷ t) (zip_emit-keep a)

zip_emit-delete : (a : List Bytes) → zip_emit a (replicate (length a) Line.delete) ≡ []
unfolding zip_emit emit
zip_emit-delete [] = refl
zip_emit-delete (o ∷ a) = zip_emit-delete a

-- An addition may go behind this line.
abbrev NotAdd : Line → Type 0
NotAdd (Line.add _) = ⊥
NotAdd _ = Unit

-- An addition may go behind the lines seen so far; nothing is prepended before the first of them.
data Open : List Line → List Bytes → Type 0 where
  start : Open [] []
  after : (d : List Line) (l : Line) (pre : List Bytes) → NotAdd l → Open (d ++ l ∷ []) pre

-- The lines seen so far, and those to come.
abbrev reached : List Line → ℕ → List Bytes → LineCommands
reached done m pre = record { lines = done ++ replicate m Line.keep; prepend = pre }

flatten_snoc : (ls : List (List Bytes)) (l : List Bytes) → flatten (ls ++ l ∷ []) ≡ flatten ls ++ l
unfolding flatten
flatten_snoc [] l = append-nil l
flatten_snoc (k ∷ ls) l = ap (λ t. k ++ t) (flatten_snoc ls l) ∙ sym (append_assoc k (flatten ls) l)

add_to-emit :
    (position : ℕ) (content : List Bytes) (l : Line)
    → NotAdd l
    → (l' : Line) × (add_to position content l ≡ ok l')
      × ((orig : Bytes) → emit orig l' ≡ emit orig l ++ content)
unfolding add_to emit flatten
add_to-emit position content (Line.add _) h = absurd h
add_to-emit position content Line.delete h =
    (Line.replace (content ∷ []), refl, λ orig. append-nil content)
add_to-emit position content Line.keep h =
    (Line.add (content ∷ []), refl, λ orig. ap (λ t. orig ∷ t) (append-nil content))
add_to-emit position content (Line.replace cs) h =
    (Line.replace (cs ++ content ∷ []), refl, λ orig. flatten_snoc cs content)

length_snoc {ℓ} : {A : Type ℓ} (xs : List A) (x : A) → length (xs ++ x ∷ []) ≡ suc (length xs)
length_snoc [] x = refl
length_snoc (y ∷ xs) x = ap suc (length_snoc xs x)

zip_emit-nil : (a : List Bytes) → zip_emit a [] ≡ []
unfolding zip_emit
zip_emit-nil [] = refl
zip_emit-nil (o ∷ a) = refl

-- What an addition behind the lines seen so far does.
abbrev Added : ℕ → List Bytes → List Line → ℕ → List Bytes → List Bytes → Type 0
Added position content done m pre idone =
    (done' : List Line) × (pre' : List Bytes) × (add_at position content (reached done m pre)
      ≡ ok (reached done' m pre'))
    × (length done' ≡ length done)
    × (pre' ++ zip_emit idone done' ≡ (pre ++ zip_emit idone done) ++ content)

zip_emit_snoc :
    (a : List Bytes) (o : Bytes) (d : List Line) (l : Line)
    → length a ≡ length d
    → zip_emit (a ++ o ∷ []) (d ++ l ∷ []) ≡ zip_emit a d ++ emit o l
unfolding zip_emit
zip_emit_snoc a o d l h =
    zip_emit-append a (o ∷ []) d (l ∷ []) h ∙ ap (λ t. zip_emit a d ++ t) (append-nil (emit o l))

add_at-after :
    (d : List Line) (l : Line) (pre : List Bytes) (m : ℕ) (content a : List Bytes) (o : Bytes)
    → NotAdd l
    → length a ≡ length d
    → Added (suc (length d)) content (d ++ l ∷ []) m pre (a ++ o ∷ [])
unfolding add_at
add_at-after d l pre m content a o h same =
    let (l', added, emits) = add_to-emit (suc (length d)) content l h in
    (
      d ++ l' ∷ [],
      pre,
      (rw (get_elem?_snoc d l (replicate m Line.keep), add_at)
          (rw (added, set_snoc d l l' (replicate m Line.keep)))),
      length_snoc d l' ∙ sym (length_snoc d l),
      ap (λ t. pre ++ t) (zip_emit_snoc a o d l' same ∙ ap (λ t. zip_emit a d ++ t) (emits o))
          ∙ simp (zip_emit_snoc a o d l same, append_assoc),
    )

add_at-Open :
    (done : List Line) (pre : List Bytes) (m : ℕ) (content idone : List Bytes)
    → length idone ≡ length done
    → Open done pre
    → Added (length done) content done m pre idone
unfolding add_at zip_emit
add_at-Open done pre m content idone same start =
    ([], content, refl, refl, rw zip_emit-nil (append-nil content))
add_at-Open done pre m content idone same (after d l _ h) =
    let (a, o, e) = list_snoc (length d) idone (same ∙ length_snoc d l) in
    let fits : length a ≡ length d =
      omega (arith, same, length_snoc d l, length_snoc a o, ap length e) in
    subst (λ i. Added i content (d ++ l ∷ []) m pre idone) (sym (length_snoc d l))
      (subst (λ x. Added (suc (length d)) content (d ++ l ∷ []) m pre x) (sym e)
        (add_at-after d l pre m content a o h fits))

delete_at-reached :
    (done : List Line) (lines m : ℕ) (pre : List Bytes)
    → lines ≤ m
    → delete_at (suc (length done)) lines (reached done m pre)
      ≡ ok (reached (done ++ replicate lines Line.delete) (m - lines) pre)
unfolding delete_at
delete_at-reached done lines m pre h =
    let keeps = replicate m Line.keep in
    let inside : leb (length done + lines) (length (done ++ keeps)) ≡ true =
      ground (arith, length-append done keeps, length-replicate m Line.keep) in
    rw (
      inside,
      take-append done keeps,
      drop-append_add done keeps lines,
      drop-replicate,
      append_assoc,
    )

-- The cursor moves over lines that no command names.
reached-keep :
    (done : List Line) (j m : ℕ) (pre : List Bytes)
    → j ≤ m
    → reached done m pre ≡ reached (done ++ replicate j Line.keep) (m - j) pre
reached-keep done j m pre h =
    let whole : j + (m - j) ≡ m = omega arith in rw (append_assoc, replicate-add, whole)

zip_emit-skip :
    (done : List Line) (idone rest : List Bytes) (j : ℕ)
    → length idone ≡ length done
    → j ≤ length rest
    → zip_emit (idone ++ take j rest) (done ++ replicate j Line.keep)
      ≡ zip_emit idone done ++ take j rest
zip_emit-skip done idone rest j same h =
    zip_emit-append idone (take j rest) done (replicate j Line.keep) same
    ∙ ap (λ t. zip_emit idone done ++ t)
        (ap (λ n. zip_emit (take j rest) (replicate n Line.keep)) (sym (length-take j rest h))
          ∙ zip_emit-keep (take j rest))

zip_emit-drop :
    (done : List Line) (idone rest : List Bytes) (j : ℕ)
    → length idone ≡ length done
    → j ≤ length rest
    → zip_emit (idone ++ take j rest) (done ++ replicate j Line.delete) ≡ zip_emit idone done
zip_emit-drop done idone rest j same h =
    zip_emit-append idone (take j rest) done (replicate j Line.delete) same
    ∙ ap (λ t. zip_emit idone done ++ t)
        (ap (λ n. zip_emit (take j rest) (replicate n Line.delete)) (sym (length-take j rest h))
          ∙ zip_emit-delete (take j rest))
    ∙ append-nil (zip_emit idone done)

-- Behind kept or deleted lines an addition may go.
Open-replicate :
    (done : List Line) (n : ℕ) (l : Line) (pre : List Bytes)
    → NotAdd l
    → Open (done ++ replicate (suc n) l) pre
Open-replicate done n l pre h =
    subst (λ t. Open t pre)
      (append_assoc done (replicate n l) (l ∷ []) ∙ ap (λ t. done ++ t) (sym (replicate_snoc n l)))
      (after (done ++ replicate n l) l pre h)

Open-keep :
    (done : List Line) (j : ℕ) (pre : List Bytes)
    → (j ≡ 0 → Open done pre)
    → Open (done ++ replicate j Line.keep) pre
Open-keep done zero pre h = rw append-nil (h refl)
Open-keep done (suc j) pre h = Open-replicate done j Line.keep pre tt
