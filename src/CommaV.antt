-- ===== src/CommaV.antt =====
-- comma-v/src/types.rs: the parts of an RCS file. `Id`, `Sym`, `VString` and `IntString` are their
-- bytes.
pub mod Char
pub mod Scalar
pub mod Parser
pub mod Text
pub mod RoundTrip
pub mod Tests
use git_cvs_fast_import.Prelude.{ℕ, List, Option, none, some, Bytes, Bool}
use git_cvs_fast_import.Prelude.Equality.{Eq, nat_eq, list_eq}
use git_cvs_fast_import.Prelude.Assoc.{Assoc, lookup}
use git_cvs_fast_import.Num.{Num, num_eq}

pub record Admin : Type 0 where
  pub head : Option Num
  pub branch : Option Num
  pub access : List Bytes
  pub symbols : Assoc Bytes Num
  pub locks : Assoc Bytes Num
  pub strict : Bool
  pub integrity : Option Bytes
  pub comment : Option Bytes
  pub expand : Option Bytes

pub record Delta : Type 0 where
  pub date : ℕ
  pub author : Bytes
  pub state : Option Bytes
  pub branches : List Num
  pub next : Option Num
  pub commit_id : Option Bytes

pub record DeltaText : Type 0 where
  pub log : Bytes
  pub text : Bytes

pub record File : Type 0 where
  pub admin : Admin
  pub delta : Assoc Num Delta
  pub desc : Bytes
  pub delta_text : Assoc Num DeltaText

-- `File::head_delta`
unfoldable pub head_delta : File → Option (Num × Delta)
unfolding lookup
head_delta f = elim f.admin.head [
  | none ↦ none
  | some head ↦ (elim (lookup head f.delta) [ none ↦ none | some delta ↦ some (head, delta) ])
]

-- `File::head_delta_text`
unfoldable pub head_delta_text : File → Option (Num × DeltaText)
unfolding lookup
head_delta_text f = elim f.admin.head [
  | none ↦ none
  | some head ↦ (elim (lookup head f.delta_text) [ none ↦ none | some text ↦ some (head, text) ])
]

-- `File::head`
unfoldable pub head : File → Option Num
head f = f.admin.head

-- `File::revision`
unfoldable pub revision : File → Num → Option (Delta × DeltaText)
unfolding lookup
revision f num = elim (lookup num f.delta) [
  | none ↦ none
  | some delta ↦ (elim (lookup num f.delta_text) [ none ↦ none | some text ↦ some (delta, text) ])
]
