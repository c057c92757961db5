-- ===== src/Ed/Edit/Apply.antt =====
-- `File::apply` on a script in order is the one pass of `edit`.
use mathlib.Core.Path.{subst}
use git_cvs_fast_import.Prelude.{
  ℕ, zero, suc, ◌+◌, ◌-◌, ◌<◌, ◌≤◌, ◌≡◌, refl, sym, ap, ◌∙◌, List, [], ◌∷◌, ◌++◌, Bytes, true,
  false, Bool, length, arith, append_assoc, ok, ◌>>=◌, take, drop, replicate, length-append,
  length-replicate, length-take, length-drop, take-append-drop, drop-drop,
}
use git_cvs_fast_import.Ed.Script.{Command}
use git_cvs_fast_import.Ed.File.{
  File, Line, LineCommands, add_at, delete_at, run, run_all, calculate, apply, apply_in_place,
}
use git_cvs_fast_import.Ed.Edit.{
  edit, InOrder, zip_emit, apply_lines-zip_emit, zip_emit-append, zip_emit-keep, Open, start,
  reached, Added, add_at-Open, delete_at-reached, reached-keep, zip_emit-skip, zip_emit-drop,
  Open-replicate, Open-keep,
}

-- The commands run without an error, and the lines come out as `out`.
abbrev Ran : List Command → LineCommands → List Bytes → List Bytes → Type 0
Ran cs lc input out =
    (lc' : LineCommands) × (run_all lc cs ≡ ok lc')
    × (lc'.prepend ++ zip_emit input lc'.lines ≡ out)

Ran-nil :
    (done : List Line) (pre idone rest : List Bytes)
    → length idone ≡ length done
    → Ran [] (reached done (length rest) pre) (idone ++ rest) ((pre ++ zip_emit idone done) ++ rest)
unfolding run_all
Ran-nil done pre idone rest same = (
  reached done (length rest) pre,
  refl,
  ap (λ t. pre ++ t)
        (zip_emit-append idone rest done (replicate (length rest) Line.keep) same
          ∙ ap (λ t. zip_emit idone done ++ t) (zip_emit-keep rest))
      ∙ sym (append_assoc pre (zip_emit idone done) rest),
)

-- One command that is run, and then the others.
Ran-cons :
    (c : Command) (cs : List Command) (lc lc₁ : LineCommands) (input input₁ out out₁ : List Bytes)
    → run lc c ≡ ok lc₁
    → input₁ ≡ input
    → out₁ ≡ out
    → Ran cs lc₁ input₁ out₁
    → Ran (c ∷ cs) lc input out
unfolding run_all
Ran-cons c cs lc lc₁ input input₁ out out₁ e same_input same_out (lc', more, o) = (
  lc',
  ap (λ r. r >>= (λ l. run_all l cs)) e ∙ more,
  ap (λ i. lc'.prepend ++ zip_emit i lc'.lines) (sym same_input) ∙ o ∙ same_out,
)

delete_at-at :
    (done : List Line) (p lines m : ℕ) (pre : List Bytes)
    → length done ≡ p
    → lines ≤ m
    → delete_at (suc p) lines (reached done m pre)
      ≡ ok (reached (done ++ replicate lines Line.delete) (m - lines) pre)
delete_at-at done p lines m pre e h =
    ap (λ i. delete_at (suc i) lines (reached done m pre)) (sym e)
    ∙ delete_at-reached done lines m pre h

Open-delete :
    (done : List Line) (n : ℕ) (pre : List Bytes)
    → 0 < n
    → Open (done ++ replicate n Line.delete) pre
Open-delete done zero pre h = absurd (omega arith)
Open-delete done (suc n) pre h = Open-replicate done n Line.delete pre tt

regroup : (idone rest : List Bytes) (j : ℕ) → (idone ++ take j rest) ++ drop j rest ≡ idone ++ rest
regroup idone rest j =
    append_assoc idone (take j rest) (drop j rest) ∙ ap (λ t. idone ++ t) (take-append-drop j rest)

run_all-edit :
    (cs : List Command) (n k : ℕ) (open_line : Bool) (done : List Line)
    (pre idone rest : List Bytes)
    → n ≡ k + length rest
    → length done ≡ k
    → length idone ≡ k
    → (open_line ≡ true → Open done pre)
    → InOrder k open_line n cs
    → Ran cs
        (reached done (length rest) pre)
        (idone ++ rest)
        ((pre ++ zip_emit idone done) ++ edit k cs rest)
run_all-edit [] n k o done pre idone rest en ed ei op ord =
    unfold edit in Ran-nil done pre idone rest (omega arith)
run_all-edit (Command.add p content ∷ cs) n k o done pre idone rest en ed ei op ord =
    let j : ℕ = p - k in
    let (low, high, at_cursor, more) = ord in
    let fits : j ≤ length rest = omega arith in
    let done₁ : List Line = done ++ replicate j Line.keep in
    let idone₁ : List Bytes = idone ++ take j rest in
    let rest₁ : List Bytes = drop j rest in
    let left : length rest - j ≡ length rest₁ = omega (arith, length-drop j rest) in
    let ld : length done₁ ≡ p =
      omega (arith, length-append done (replicate j Line.keep), length-replicate j Line.keep) in
    let li : length idone₁ ≡ p =
      omega (arith, length-append idone (take j rest), length-take j rest fits) in
    let same : length idone₁ ≡ length done₁ = omega arith in
    let (done', pre', e, len', out) =
      subst (λ i. Added i content done₁ (length rest₁) pre idone₁) ld
        (add_at-Open done₁ pre (length rest₁) content idone₁ same
          (Open-keep done j pre (λ z. op (at_cursor (omega arith))))) in
    Ran-cons (Command.add p content) cs (reached done (length rest) pre)
      (reached done' (length rest₁) pre') (idone ++ rest) (idone₁ ++ rest₁) _
      ((pre' ++ zip_emit idone₁ done') ++ edit p cs rest₁)
      (unfold run in
        ap (add_at p content)
          (reached-keep done j (length rest) pre fits ∙ ap (λ m. reached done₁ m pre) left)
        ∙ e)
      (regroup idone rest j)
      (ap (λ t. t ++ edit p cs rest₁) out
        ∙ unfold edit in simp (zip_emit-skip done idone rest j (omega arith) fits, append_assoc))
      (run_all-edit cs n p false done' pre' idone₁ rest₁ (omega arith) (omega arith) li (λ f. cc)
        more)
run_all-edit (Command.delete zero l ∷ cs) n k o done pre idone rest en ed ei op ord =
    absurd (omega (arith, ord.0))
run_all-edit (Command.delete (suc p) l ∷ cs) n k o done pre idone rest en ed ei op ord =
    let j : ℕ = suc p - 1 - k in
    let (low, high, some_lines, more) = ord in
    let fits : j ≤ length rest = omega arith in
    let done₁ : List Line = done ++ replicate j Line.keep in
    let idone₁ : List Bytes = idone ++ take j rest in
    let rest₁ : List Bytes = drop j rest in
    let rest₂ : List Bytes = drop (j + l) rest in
    let fits₁ : l ≤ length rest₁ = omega (arith, length-drop j rest) in
    let left : length rest - j - l ≡ length rest₂ = omega (arith, length-drop (j + l) rest) in
    let ld : length done₁ ≡ p =
      omega (arith, length-append done (replicate j Line.keep), length-replicate j Line.keep) in
    let li : length idone₁ ≡ p =
      omega (arith, length-append idone (take j rest), length-take j rest fits) in
    let done₂ : List Line = done₁ ++ replicate l Line.delete in
    let idone₂ : List Bytes = idone₁ ++ take l rest₁ in
    Ran-cons (Command.delete (suc p) l) cs (reached done (length rest) pre)
      (reached done₂ (length rest₂) pre) (idone ++ rest) (idone₂ ++ rest₂) _
      ((pre ++ zip_emit idone₂ done₂) ++ edit (suc p - 1 + l) cs rest₂)
      (unfold run in
        ap (delete_at (suc p) l) (reached-keep done j (length rest) pre fits)
        ∙ delete_at-at done₁ p l (length rest - j) pre ld (omega arith)
        ∙ ap (λ m. ok (reached done₂ m pre)) left)
      (ap (λ r. idone₂ ++ r) (sym (drop-drop j l rest))
        ∙ regroup idone₁ rest₁ l
        ∙ regroup idone rest j)
      (ap (λ t. (pre ++ t) ++ edit (suc p - 1 + l) cs rest₂)
          (zip_emit-drop done₁ idone₁ rest₁ l (omega arith) fits₁
            ∙ zip_emit-skip done idone rest j (omega arith) fits)
        ∙ unfold edit in simp append_assoc)
      (run_all-edit cs n (suc p - 1 + l) true done₂ pre idone₂ rest₂
        (omega (arith, length-drop (j + l) rest))
        (omega
          (arith, length-append done₁ (replicate l Line.delete), length-replicate l Line.delete))
        (omega (arith, length-append idone₁ (take l rest₁), length-take l rest₁ fits₁))
        (λ _. Open-delete done₁ l pre some_lines) more)

-- On a script that goes forward through the file, `calculate` neither fails nor panics, and `apply`
-- gives the lines of the one pass of `edit`.
pub apply-edit :
    (f : File) (commands : List Command)
    → InOrder 0 true (length f.lines) commands
    → apply f commands ≡ ok (edit 0 commands f.lines)
unfolding apply calculate edit zip_emit
apply-edit f commands ord =
    let (lc, e, out) =
      run_all-edit commands (length f.lines) 0 true [] [] [] f.lines (omega arith) refl refl
        (λ _. start) ord in
    rw e (ap ok (apply_lines-zip_emit lc.prepend f.lines lc.lines ∙ out))

-- On such a script `apply_in_place` replaces the file by those lines.
pub apply_in_place-edit :
    (f : File) (commands : List Command)
    → InOrder 0 true (length f.lines) commands
    → apply_in_place f commands ≡ (record { lines = edit 0 commands f.lines }, ok tt)
unfolding apply_in_place
apply_in_place-edit f commands ord = rw (apply-edit f commands ord, apply_in_place)
