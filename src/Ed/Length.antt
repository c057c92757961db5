-- ===== src/Ed/Length.antt =====
-- The commands never change the number of lines that `LineCommands` speaks of.
use git_cvs_fast_import.Prelude.{
  ℕ, zero, suc, ◌+◌, ◌≡◌, ◌∙◌, List, [], ◌∷◌, ◌++◌, Bytes, length, arith, ok, >>=-eq-ok, take, drop,
  replicate, length-append, length-replicate, length-take, length-drop, length-set,
}
use git_cvs_fast_import.Ed.Script.{Command}
use git_cvs_fast_import.Ed.File.{Line, LineCommands, add_at, delete_at, run_all, calculate}

add_at-length :
    (position : ℕ) (content : List Bytes) (lc lc' : LineCommands)
    → add_at position content lc ≡ ok lc'
    → length lc'.lines ≡ length lc.lines
unfolding add_at
add_at-length zero content lc lc' h = ground arith
add_at-length (suc i) content lc lc' h = grind (arith, length-set)

delete_at-length :
    (position n : ℕ) (lc lc' : LineCommands)
    → delete_at position n lc ≡ ok lc'
    → length lc'.lines ≡ length lc.lines
unfolding delete_at
delete_at-length zero n lc lc' h = cc
delete_at-length (suc i) n lc lc' h = ground (
  arith,
  length-append (take i lc.lines ++ replicate n Line.delete) (drop (i + n) lc.lines),
  length-append (take i lc.lines) (replicate n Line.delete),
  length-replicate n Line.delete,
  length-take i lc.lines,
  length-drop (i + n) lc.lines,
)

run_all-length :
    (cs : List Command) (lc lc' : LineCommands)
    → run_all lc cs ≡ ok lc'
    → length lc'.lines ≡ length lc.lines
unfolding run_all
run_all-length [] lc lc' h = ground arith
run_all-length (Command.add p content ∷ cs) lc lc' h =
    let (mid, e, more) = >>=-eq-ok (add_at p content lc) (λ l. run_all l cs) h in
    run_all-length cs mid lc' more ∙ add_at-length p content lc mid e
run_all-length (Command.delete p n ∷ cs) lc lc' h =
    let (mid, e, more) = >>=-eq-ok (delete_at p n lc) (λ l. run_all l cs) h in
    run_all-length cs mid lc' more ∙ delete_at-length p n lc mid e

-- Whatever the script, a result of `calculate` has one entry for each line of the file.
pub calculate-length :
    (n : ℕ) (commands : List Command) (lc : LineCommands)
    → calculate n commands ≡ ok lc
    → length lc.lines ≡ n
unfolding calculate
calculate-length n commands lc h = run_all-length commands _ lc h ∙ length-replicate n Line.keep
