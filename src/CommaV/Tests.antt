-- ===== src/CommaV/Tests.antt =====
-- comma-v/src/parser on concrete inputs, with a calendar in which a month has 31 days.
use git_cvs_fast_import.Prelude.{
  ℕ, ◌+◌, ◌*◌, [], ◌∷◌, ◌++◌, none, some, codes, newline, ◌&&◌, leb, if◌then◌else◌, ok, err, panic,
  ◌≡◌, refl, arith,
}
use git_cvs_fast_import.Prelude.Equality.{nat_eq, list_eq}
use git_cvs_fast_import.Decimal.{parse_u64}
use git_cvs_fast_import.Num.{Num, num_eq}
use git_cvs_fast_import.Nom.Concrete.{concrete, run_tag, run_digit1}
use git_cvs_fast_import.Nom.Complete.Concrete as Complete
use git_cvs_fast_import.CommaV.{DeltaText}
use git_cvs_fast_import.CommaV.Scalar.{Calendar, integrity_string, string, date}
use git_cvs_fast_import.CommaV.Parser.{branch_field, delta_text, desc}
use git_cvs_fast_import.CommaV.Text.{quote, string-quote}
use git_cvs_fast_import.CommaV.RoundTrip.{print_delta_text, delta_text-print_delta_text}

abbrev pub long_months : Calendar
long_months = record {
  NaiveDate = ℕ;
  from_ymd_opt = λ year month day.
      if leb 1 month && (leb month 12 && (leb 1 day && leb day 31))
      then some ((year * 12 + month) * 31 + day)
      else none;
  and_hms_milli_opt = λ day hour minute second milli.
      if leb hour 23 && (leb minute 59 && (leb second 59 && leb milli 1999))
      then some (((day * 24 + hour) * 60 + minute) * 60 + second)
      else none;
}

-- From `test` of scalar.rs
test_string :
    (string concrete Complete.concrete (codes "@foo bar@") ≡ ok ([], codes "foo bar"))
    × (string concrete Complete.concrete (codes "@foo@@bar@") ≡ ok ([], codes "foo@bar"))
unfolding string Complete.concrete run_tag
test_string = (refl, refl)

test_integrity_string :
    (integrity_string concrete Complete.concrete (codes "@@") ≡ ok ([], []))
    × (integrity_string concrete Complete.concrete (codes "@foo@") ≡ ok ([], codes "foo"))
unfolding integrity_string Complete.concrete run_tag
test_integrity_string = (refl, refl)

-- From `test_date`: a range error, and a leap second that is too long
test_date :
    (date concrete Complete.concrete long_months (codes "2021.13.1.0.0.0")
      ≡ err (codes "2021.13.1.0.0.0"))
    × (date concrete Complete.concrete long_months (codes "2021.1.1.0.0.61")
        ≡ err (codes "2021.1.1.0.0.61"))
    × (date concrete Complete.concrete long_months (codes "98.08.11.19.08.27")
        ≡ date concrete Complete.concrete long_months (codes "1998.8.11.19.8.27"))
unfolding date Complete.concrete run_tag run_digit1 parse_u64
test_date = (refl, refl, refl)

-- The number of seconds overflows a `u32` in milliseconds.
test_date_overflow :
    date concrete Complete.concrete long_months (codes "2021.1.1.0.0.4295027") ≡ panic
unfolding date Complete.concrete run_tag run_digit1 parse_u64
test_date_overflow = refl

-- A `branch` with no number, which RCS allows, panics.
test_branch_field :
    (branch_field concrete Complete.concrete long_months (codes "branch 1.1.1;")
      ≡ ok ([], some (Num.branch (1 ∷ 1 ∷ 1 ∷ []))))
    × (branch_field concrete Complete.concrete long_months (codes "access;")
        ≡ ok (codes "access;", none))
    × (branch_field concrete Complete.concrete long_months (codes "branch ;") ≡ panic)
unfolding branch_field Complete.concrete run_tag parse_u64
test_branch_field = (refl, refl, refl)

-- From `test_desc`
test_desc :
    desc concrete Complete.concrete long_months (codes "desc   @foo@@bar@")
    ≡ ok ([], codes "foo@bar")
unfolding desc Complete.concrete run_tag
test_desc = refl

string-quote_example :
    string concrete Complete.concrete (quote (codes "a@b") ++ newline ∷ [])
    ≡ ok (newline ∷ [], codes "a@b")
string-quote_example = string-quote concrete Complete.concrete (codes "a@b") (newline ∷ []) refl

abbrev one_text : DeltaText
one_text = record { log = codes "fix @"; text = codes "d1 1" }

delta_text-print_delta_text_example :
    delta_text concrete Complete.concrete long_months
      (print_delta_text (Num.commit (1 ∷ 2 ∷ [])) one_text (newline ∷ []))
    ≡ ok (newline ∷ [], (Num.commit (1 ∷ 2 ∷ []), one_text))
delta_text-print_delta_text_example =
    delta_text-print_delta_text concrete Complete.concrete long_months (Num.commit (1 ∷ 2 ∷ []))
      one_text (newline ∷ [])
      ((λ e. cc), tt, ((omega arith, omega arith), ((omega arith, omega arith), tt))) refl
