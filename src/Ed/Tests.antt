-- ===== src/Ed/Tests.antt =====
-- Runs of the crate's functions, and the theorems at concrete inputs.
use git_cvs_fast_import.Prelude.{
  List, [], ◌∷◌, ◌++◌, Bytes, codes, some, Outcome, ok, err, panic, ◌≡◌, refl, true, arith, length,
}
use git_cvs_fast_import.Decimal.{parse_u64}
use git_cvs_fast_import.Nom.Concrete.{concrete, run_tag, run_digit1}
use git_cvs_fast_import.Ed.Command as Header
use git_cvs_fast_import.Ed.Script
use git_cvs_fast_import.Ed.Script.{Command}
use git_cvs_fast_import.Ed.File.{
  File, Line, LineCommands, new, as_bytes, apply, apply_in_place, calculate,
}
use git_cvs_fast_import.Ed.Bytes.{as_bytes-new}
use git_cvs_fast_import.Ed.Edit.{edit, InOrder}
use git_cvs_fast_import.Ed.Edit.Apply.{apply-edit, apply_in_place-edit}
use git_cvs_fast_import.Ed.Length.{calculate-length}
use git_cvs_fast_import.Ed.Print.{header_line, parse-add, parse-overflow, print_all}
use git_cvs_fast_import.Ed.RoundTrip.{unlines, into_command_list-parse, into_command_list_total}

abbrev lossy : Bytes → Bytes
lossy b = b

-- `test_parse` of rcs-ed/src/command.rs
test_parse :
    (Header.parse concrete lossy (codes "a2 3") ≡ ok (Header.Command.add 2 3))
    × (Header.parse concrete lossy (codes "d20 32121") ≡ ok (Header.Command.delete 20 32121))
    × (Header.parse concrete lossy [] ≡ err Header.no_command)
    × (Header.parse concrete lossy (codes "c1 2") ≡ err (Header.invalid_command (codes "c1 2")))
unfolding Header.parse Header.digits_to_usize parse_u64 run_tag run_digit1
test_parse = (refl, refl, refl, refl)

abbrev four_lines : File
four_lines = record { lines = codes "one" ∷ codes "two" ∷ codes "three" ∷ codes "four" ∷ [] }

abbrev script : List Command
script =
    Command.add 0 (codes "zero" ∷ [])
    ∷ Command.delete 2 2
    ∷ Command.add 3 (codes "TWO" ∷ codes "THREE" ∷ [])
    ∷ []

test_apply :
    apply four_lines script
    ≡ ok (codes "zero" ∷ codes "one" ∷ codes "TWO" ∷ codes "THREE" ∷ codes "four" ∷ [])
unfolding apply
test_apply = refl

out_of_range : apply four_lines (Command.delete 4 2 ∷ []) ≡ panic
unfolding apply
out_of_range = refl

script-InOrder : InOrder 0 true 4 script
script-InOrder = (
  omega arith,
  omega arith,
  (λ _. refl),
  (omega arith, omega arith, omega arith, (omega arith, omega arith, (λ _. refl), tt)),
)

apply-edit_example : apply four_lines script ≡ ok (edit 0 script four_lines.lines)
apply-edit_example = apply-edit four_lines script script-InOrder

apply_in_place-edit_example :
    apply_in_place four_lines script ≡ (record { lines = edit 0 script four_lines.lines }, ok tt)
apply_in_place-edit_example = apply_in_place-edit four_lines script script-InOrder

as_bytes-new_example :
    (f : File) × (new (codes "ab\n\nc\n") ≡ some f) × (as_bytes f ≡ codes "ab\n\nc\n")
as_bytes-new_example = as_bytes-new (codes "ab\n\nc\n")

abbrev two_deleted : LineCommands
two_deleted = record {
  lines = Line.keep ∷ Line.delete ∷ Line.delete ∷ Line.keep ∷ [];
  prepend = [];
}

calculate_run : calculate 4 (Command.delete 2 2 ∷ []) ≡ ok two_deleted
unfolding calculate
calculate_run = refl

test_calculate-length : length two_deleted.lines ≡ 4
test_calculate-length = calculate-length 4 (Command.delete 2 2 ∷ []) two_deleted calculate_run

test_parse-add :
    Header.parse concrete lossy (header_line (codes "a") 2 3 (codes "x"))
    ≡ ok (Header.Command.add 2 3)
test_parse-add = parse-add concrete lossy 2 3 (codes "x") (omega arith) (omega arith) refl

parse-overflow_example :
    Header.parse concrete lossy
      (codes "a" ++ (codes "18446744073709551616" ++ (codes " " ++ (codes "1" ++ []))))
    ≡ panic
unfolding parse_u64
parse-overflow_example =
    parse-overflow concrete lossy (codes "18446744073709551616") (codes "1") [] (cc) (cc)
      (
        refl,
        (
          refl,
          (
            refl,
            (
              refl,
              (
                refl,
                (
                  refl,
                  (
                    refl,
                    (
                      refl,
                      (
                        refl,
                        (
                          refl,
                          (
                            refl,
                            (
                              refl,
                              (refl, (refl, (refl, (refl, (refl, (refl, (refl, (refl, tt)))))))),
                            ),
                          ),
                        ),
                      ),
                    ),
                  ),
                ),
              ),
            ),
          ),
        ),
      )
      (refl, tt) tt refl

into_command_list-parse_example :
    Script.into_command_list concrete lossy (Script.parse (unlines (print_all script)))
    ≡ some (ok script)
into_command_list-parse_example =
    into_command_list-parse concrete lossy script (omega arith) (omega arith)

into_command_list_total_example :
    (o : Outcome Script.Error (List Command)) × (Script.into_command_list concrete lossy
        (Script.parse (codes "a1 2\nx"))
      ≡ some o)
into_command_list_total_example =
    into_command_list_total concrete lossy (Script.parse (codes "a1 2\nx"))
