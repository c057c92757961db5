-- ===== src/FastImport/Identity.antt =====
-- git-fast-import/src/identity.rs: Git identities.
use git_cvs_fast_import.Prelude.{ℕ, [], ◌++◌, Option, none, some, Bytes, codes, Outcome, ok, err}
use git_cvs_fast_import.Decimal.{to_string}
use git_cvs_fast_import.Time.{unix_epoch, duration_since, as_secs}

pub record Identity : Type 0 where
  pub name : Option Bytes
  pub email : Bytes
  pub when : ℕ

-- `SystemTimeError`
pub data TimeError : Type 0 where
  before_epoch : TimeError

unfoldable pub new : Option Bytes → Bytes → ℕ → Outcome TimeError Identity
new name email when = elim (duration_since when unix_epoch) [
  | none ↦ err before_epoch
  | some since ↦ ok (record { name = name; email = email; when = as_secs since })
]

-- `Display for Identity`
unfoldable pub fmt : Identity → Bytes
fmt identity =
    named identity.name
    ++ (codes "<"
        ++ (identity.email ++ (codes "> " ++ (to_string identity.when ++ codes " +0000"))))
  where
    named : Option Bytes → Bytes
    named none = []
    named (some name) = name ++ codes " "
