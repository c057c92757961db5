-- ===== src/CommaV/Scalar.antt =====
-- comma-v/src/parser/scalar.rs: the parsers of the values in an RCS file. The combinators of `nom` and
-- the calendar of `chrono` are parameters.
use git_cvs_fast_import.Prelude.{
  ℕ, ◌+◌, ◌-◌, ◌*◌, [], ◌++◌, Option, none, some, Bytes, codes, Bool, ◌||◌, ◌==◌, leb, ltb,
  if◌then◌else◌, Outcome, ok, err, panic, ◌>>=◌,
}
use git_cvs_fast_import.Decimal.{parse_u64, is_digit}
use git_cvs_fast_import.Num
use git_cvs_fast_import.Num.{Num}
use git_cvs_fast_import.Nom.{Nom, Parser}
use git_cvs_fast_import.Nom.Complete.{Combinators}
use git_cvs_fast_import.CommaV.Char.{is_idchar, is_intchar}

abbrev pub at_sign : ℕ
at_sign = b'@'

-- What the program uses of `chrono`: a date, and the time on it as a `SystemTime`.
pub record Calendar : Type 1 where
  pub NaiveDate : Type 0
  pub from_ymd_opt : ℕ → ℕ → ℕ → Option NaiveDate
  pub and_hms_milli_opt : NaiveDate → ℕ → ℕ → ℕ → ℕ → Option ℕ

pub data DateError : Type 0 where
  invalid_date : (year : ℕ) → (month : ℕ) → (day : ℕ) → DateError
  invalid_time : (hour : ℕ) → (minute : ℕ) → (second : ℕ) → DateError

abbrev pub max_i32 : ℕ
max_i32 = 2_147_483_647

abbrev pub max_u32 : ℕ
max_u32 = 4_294_967_295

-- `T::from_str` on digits, where `T` goes up to `max`
unfoldable pub from_digits : ℕ → Bytes → Outcome (Unit {0}) ℕ
unfolding parse_u64
from_digits max s = elim (parse_u64 s) [
  | none ↦ err tt
  | some n ↦ if leb n max then ok n else err tt
]

-- `(second - 59) * 1000` of a `u32`
unfoldable pub leap_milli : {E : Type 0} → ℕ → Outcome E ℕ
leap_milli second =
    if leb 60 second
    then (if leb ((second - 59) * 1000) max_u32 then ok ((second - 59) * 1000) else panic)
    else ok 0

module _ (calendar : Calendar) where
  -- The closure of `date`.
  unfoldable pub make_date : ℕ × (ℕ × (ℕ × (ℕ × (ℕ × ℕ)))) → Outcome DateError ℕ
  unfolding leap_milli
  make_date (year, (month, (day, (hour, (minute, second))))) =
      elim (calendar.from_ymd_opt (if ltb year 100 then year + 1900 else year) month day) [
        | none ↦ err (invalid_date year month day)
        | some date ↦ leap_milli second >>= λ milli.
            elim (calendar.and_hms_milli_opt date hour minute (if leb 60 second then 59 else second)
              milli) [ none ↦ err (invalid_time hour minute second) | some time ↦ ok time ]
      ]

abbrev pub is_numlike : ℕ → Bool
is_numlike c = (c == b'.') || is_digit c

abbrev pub is_at : ℕ → Bool
is_at c = c == at_sign

-- The closure of `fold_many0`
abbrev pub extend : Bytes → Bytes → Bytes
extend v more = v ++ more

module _ (nom : Nom) (more : Combinators) where
  unfoldable pub integrity_string : Parser Bytes
  unfolding is_intchar
  integrity_string =
      nom.delimited Bytes Bytes Bytes (nom.tag (codes "@")) (more.take_while is_intchar)
        (nom.tag (codes "@"))

  unfoldable pub id : Parser Bytes
  unfolding is_idchar
  id = more.take_while (λ c. is_idchar c || (c == b'.'))

  unfoldable pub numlike : Parser Bytes
  numlike = more.take_while1 is_numlike

  -- Digits and dots are valid UTF-8, so that `try_from` is `from_str`.
  unfoldable pub num : Parser Num
  unfolding numlike Num.from_str
  num = more.map_res Bytes Num Num.Error numlike Num.from_str

  unfoldable pub string_literal : Parser Bytes
  string_literal = more.take_till1 is_at

  unfoldable pub string_escape : Parser Bytes
  string_escape = more.value Bytes Bytes (codes "@") (nom.tag (codes "@@"))

  unfoldable pub fragment : Parser Bytes
  unfolding string_literal string_escape
  fragment = nom.alt Bytes string_literal string_escape

  unfoldable pub string : Parser Bytes
  unfolding fragment
  string =
      nom.delimited Bytes Bytes Bytes (nom.tag (codes "@"))
        (more.fold_many0 Bytes Bytes fragment [] extend) (nom.tag (codes "@"))

  unfoldable pub sym : Parser Bytes
  unfolding is_idchar
  sym = more.take_while is_idchar

  unfoldable pub digits : ℕ → Parser ℕ
  unfolding from_digits
  digits max = more.map_res Bytes ℕ (Unit {0}) nom.digit1 (from_digits max)

  -- `terminated(digits, tag(b"."))`
  abbrev pub digits_dot : ℕ → Parser ℕ
  unfolding digits
  digits_dot max = more.terminated ℕ Bytes (digits max) (nom.tag (codes "."))

  unfoldable pub date : Calendar → Parser ℕ
  unfolding make_date digits_dot digits
  date calendar =
      more.map_res (ℕ × (ℕ × (ℕ × (ℕ × (ℕ × ℕ))))) ℕ DateError
        (nom.tuple ℕ _ (digits_dot max_i32) (
          nom.tuple ℕ _ (digits_dot max_u32) (
            nom.tuple ℕ _ (digits_dot max_u32) (
              nom.tuple ℕ _ (digits_dot max_u32)
                (nom.tuple ℕ ℕ (digits_dot max_u32) (digits max_u32))))))
        (make_date calendar)
