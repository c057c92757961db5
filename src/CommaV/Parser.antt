-- ===== src/CommaV/Parser.antt =====
-- comma-v/src/parser/mod.rs and `parse` of comma-v/src/lib.rs: the parsers of an RCS file. The input at
-- an error is kept, and the kind of the error is not.
use git_cvs_fast_import.Prelude.{
  ℕ, List, [], ◌∷◌, Option, none, some, Bytes, codes, Bool, true, false, Outcome, ok, err, panic,
  ◌>>=◌,
}
use git_cvs_fast_import.Prelude.Equality.{nat_eq, list_eq}
use git_cvs_fast_import.Prelude.Assoc.{Assoc, insert}
use git_cvs_fast_import.Num.{Num, num_eq}
use git_cvs_fast_import.Nom.{Nom, Parser, IResult}
use git_cvs_fast_import.Nom.Complete.{Combinators}
use git_cvs_fast_import.CommaV
use git_cvs_fast_import.CommaV.{Admin, Delta, DeltaText}
use git_cvs_fast_import.CommaV.Scalar.{Calendar, integrity_string, id, num, string, sym, date}

-- `map` with a function that may panic
abbrev pub and_unwrap : IResult (Option (Option Num)) → IResult (Option Num)
and_unwrap (ok (rest, none)) = ok (rest, none)
and_unwrap (ok (rest, some (some b))) = ok (rest, some b)
and_unwrap (ok (rest, some none)) = panic
and_unwrap (err e) = err e
and_unwrap panic = panic

abbrev pub is_some : {A : Type 0} → Option A → Bool
is_some none = false
is_some (some a) = true

-- `collect()` into a hash map: a later pair replaces one with the same key.
unfoldable pub collect : {V : Type 0} → Assoc Num V → List (Num × V) → Assoc Num V
unfolding insert
collect m [] = m
collect m ((k, v) ∷ pairs) = collect (insert k v m) pairs

module _ (nom : Nom) (more : Combinators) (calendar : Calendar) where
  -- `tuple((multispace0, tag(b";"), multispace0))`
  unfoldable pub semicolon : Parser (Bytes × (Bytes × Bytes))
  semicolon =
      nom.tuple Bytes (Bytes × Bytes) more.multispace0
        (nom.tuple Bytes Bytes (nom.tag (codes ";")) more.multispace0)

  -- `tuple((tag(word), multispace1))`
  unfoldable pub keyword : Bytes → Parser (Bytes × Bytes)
  keyword word = nom.tuple Bytes Bytes (nom.tag word) more.multispace1

  -- A keyword, a value and a semicolon
  unfoldable pub field : (A : Type 0) → Bytes → Parser A → Parser A
  unfolding keyword semicolon
  field A word p =
      nom.delimited (Bytes × Bytes) A (Bytes × (Bytes × Bytes)) (keyword word) p semicolon

  -- The same, where the value has its own space
  unfoldable pub spaced_field : (A : Type 0) → Bytes → Parser A → Parser A
  unfolding semicolon
  spaced_field A word p = nom.delimited Bytes A (Bytes × (Bytes × Bytes)) (nom.tag word) p semicolon

  -- `delimited(multispace0, p, multispace0)`
  unfoldable pub padded : (A : Type 0) → Parser A → Parser A
  padded A p = nom.delimited Bytes A Bytes more.multispace0 p more.multispace0

  -- The pairs of `symbols` and of `locks`, which differ in the parser of the names
  unfoldable pub numbered : Parser Bytes → Parser (Assoc Bytes Num)
  unfolding padded num insert
  numbered name =
      more.fold_many0 (Bytes × Num) (Assoc Bytes Num)
        (more.separated_pair Bytes Bytes Num (padded Bytes name) (nom.tag (codes ":"))
          (padded Num (num nom more)))
        [] (λ acc pair. insert pair.0 pair.1 acc)

  unfoldable pub branch_field : Parser (Option Num)
  unfolding field num
  branch_field input = and_unwrap (
      more.opt (Option Num) (field (Option Num) (codes "branch") (more.opt Num (num nom more)))
        input)

  unfoldable pub strict_field : Parser Bool
  unfolding semicolon
  strict_field =
      nom.map (Option (Bytes × (Bytes × (Bytes × Bytes)))) Bool
        (more.opt _ (nom.tuple Bytes _ (nom.tag (codes "strict")) semicolon)) is_some

  -- The closure of `admin`
  abbrev pub make_admin :
      Option Num
        × (Option Num
            × (List Bytes
                × (Assoc Bytes Num
                    × (Assoc Bytes Num × (Bool × (Option Bytes × (Option Bytes × Option Bytes)))))))
      → Admin
  make_admin
        (
          head,
          (branch_number, (access, (symbols, (locks, (strict, (integrity, (comment, expand))))))),
        ) =
      record {
        head = head;
        branch = branch_number;
        access = access;
        symbols = symbols;
        locks = locks;
        strict = strict;
        integrity = integrity;
        comment = comment;
        expand = expand;
      }

  unfoldable pub admin : Parser Admin
  unfolding field spaced_field branch_field strict_field numbered num id sym string integrity_string
  admin =
      nom.map _ Admin
        (more.permutation9 (Option Num) (Option Num) (List Bytes) (Assoc Bytes Num)
          (Assoc Bytes Num) Bool (Option Bytes) (Option Bytes) (Option Bytes)
          (field (Option Num) (codes "head") (more.opt Num (num nom more))) branch_field
          (spaced_field (List Bytes) (codes "access")
            (more.many0 Bytes (more.preceded Bytes Bytes more.multispace1 (id nom more))))
          (spaced_field (Assoc Bytes Num) (codes "symbols") (numbered (sym nom more)))
          (spaced_field (Assoc Bytes Num) (codes "locks") (numbered (id nom more))) strict_field
          (more.opt Bytes (field Bytes (codes "integrity") (integrity_string nom more)))
          (more.opt Bytes (field Bytes (codes "comment") (string nom more)))
          (more.opt Bytes (field Bytes (codes "expand") (string nom more))))
        make_admin

  -- The closure of `delta`
  abbrev pub make_delta :
      Num × (ℕ × (Bytes × (Option Bytes × (List Num × (Option Num × Option Bytes))))) → Num × Delta
  make_delta (number, (time, (author, (state, (branches, (next, commit_id)))))) = (
    number,
    record {
      date = time;
      author = author;
      state = state;
      branches = branches;
      next = next;
      commit_id = commit_id;
    },
  )

  unfoldable pub delta : Parser (Num × Delta)
  unfolding field spaced_field num id sym date
  delta =
      nom.map _ (Num × Delta)
        (nom.tuple Num _ (more.terminated Num Bytes (num nom more) more.multispace1) (
          more.permutation6 ℕ Bytes (Option Bytes) (List Num) (Option Num) (Option Bytes)
            (field ℕ (codes "date") (date nom more calendar))
            (field Bytes (codes "author") (id nom more))
            (field (Option Bytes) (codes "state") (more.opt Bytes (id nom more)))
            (spaced_field (List Num) (codes "branches")
              (more.many0 Num (more.preceded Bytes Num more.multispace1 (num nom more))))
            (field (Option Num) (codes "next") (more.opt Num (num nom more)))
            (more.opt Bytes (field Bytes (codes "commitid") (sym nom more)))))
        make_delta

  -- The closure of `delta_text`
  abbrev pub make_delta_text : Num × (Bytes × (Bytes × (Bytes × Bytes))) → Num × DeltaText
  make_delta_text (number, (_, (log, (_, text)))) = (number, record { log = log; text = text })

  unfoldable pub delta_text : Parser (Num × DeltaText)
  unfolding num string
  delta_text =
      nom.map _ (Num × DeltaText)
        (nom.tuple Num _ (num nom more) (
          nom.tuple Bytes _ (more.preceded Bytes Bytes more.multispace1 (nom.tag (codes "log"))) (
            nom.tuple Bytes _
              (nom.delimited Bytes Bytes Bytes more.multispace1 (string nom more) more.multispace1)
              (nom.tuple Bytes Bytes (nom.tag (codes "text"))
                (more.preceded Bytes Bytes more.multispace1 (string nom more))))))
        make_delta_text

  unfoldable pub desc : Parser Bytes
  unfolding keyword string
  desc = more.preceded (Bytes × Bytes) Bytes (keyword (codes "desc")) (string nom more)

  -- The closure of `file`
  unfoldable pub make_file :
      Admin × (List (Num × Delta) × (Bytes × List (Num × DeltaText))) → CommaV.File
  unfolding collect
  make_file (a, (deltas, (description, texts))) = record {
    admin = a;
    delta = collect [] deltas;
    desc = description;
    delta_text = collect [] texts;
  }

  unfoldable pub file : Parser CommaV.File
  unfolding padded admin delta desc delta_text make_file
  file =
      nom.map _ CommaV.File
        (nom.tuple Admin _ (padded Admin admin) (
          nom.tuple (List (Num × Delta)) _
            (more.many0 _ (more.terminated (Num × Delta) Bytes delta more.multispace0))
            (nom.tuple Bytes _ (more.terminated Bytes Bytes desc more.multispace0) (
              more.many0 (Num × DeltaText)
                (more.terminated (Num × DeltaText) Bytes delta_text more.multispace0)))))
        make_file

  -- `parse`; what is left of the input is dropped.
  unfoldable pub parse : Bytes → Outcome Bytes CommaV.File
  unfolding file
  parse input = file input >>= λ r. ok r.1
