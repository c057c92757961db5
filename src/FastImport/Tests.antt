-- ===== src/FastImport/Tests.antt =====
-- The git-fast-import writer on concrete inputs.
use git_cvs_fast_import.Prelude.{
  List, [], ◌∷◌, ◌++◌, none, some, Option, Bytes, codes, ◌≡◌, refl, map, arith, ok, err,
}
use git_cvs_fast_import.Decimal.{max_u64, parse_u64, to_string}
use git_cvs_fast_import.Nom.Concrete.{concrete, run_tag, run_digit1}
use git_cvs_fast_import.Nom.Complete.Concrete as Complete
use git_cvs_fast_import.FastImport.{Writer, run, mark_parsing_error}
use git_cvs_fast_import.FastImport.MarkFile.{get_last_mark}
use git_cvs_fast_import.FastImport.MarkFile.LastMark.{written_line, get_last_mark-written}
use git_cvs_fast_import.FastImport.Identity
use git_cvs_fast_import.FastImport.Identity.{Identity}
use git_cvs_fast_import.FastImport.Commit
use git_cvs_fast_import.FastImport.Commit.{
  modify, normal, delete, set_committer, set_message, add_file_command, set_from, Setting,
}
use git_cvs_fast_import.FastImport.Build.{apply_all, build-apply_all}
use git_cvs_fast_import.FastImport.Read.{blob_command, numbered, read_blobs, read_blobs-run}

abbrev writer : Writer
writer = record { written = []; next_mark = 12 }

abbrev blobs : List Bytes
blobs = codes "a" ∷ [] ∷ codes "blob" ∷ []

read_blobs-run_example :
    (out : Bytes) × (w' : Writer) × (run (map blob_command blobs) writer
      ≡ ok (map (λ p. p.0) (numbered 12 blobs), w'))
    × (w'.written ≡ [] ++ out)
    × ((s : Bytes) → read_blobs 3 (out ++ s) ≡ some (numbered 12 blobs, s))
read_blobs-run_example =
    read_blobs-run blobs writer (omega arith) (omega arith, (omega arith, (omega arith, tt)))

abbrev identity : Identity
identity = record { name = none; email = codes "ann"; when = 5 }

abbrev settings : List Setting
settings =
    set_committer identity
    ∷ set_message (codes "m")
    ∷ set_from 3
    ∷ add_file_command (modify normal 2 (codes "a"))
    ∷ add_file_command (delete (codes "b"))
    ∷ []

build-apply_all_example :
    Commit.build (apply_all settings (Commit.new (codes "refs/heads/main")))
    ≡ ok (record {
      branch_ref = codes "refs/heads/main";
      author = none;
      committer = identity;
      message = codes "m";
      from = some 3;
      merge = none;
      commands = modify normal 2 (codes "a") ∷ delete (codes "b") ∷ [];
    })
build-apply_all_example = build-apply_all (codes "refs/heads/main") settings

-- The bytes of a commit.
test_commit :
    Commit.write
      (record {
        branch_ref = codes "refs/heads/main";
        author = none;
        committer = identity;
        message = codes "m";
        from = some 3;
        merge = none;
        commands = modify normal 2 (codes "a") ∷ delete (codes "b") ∷ [];
      })
      4
    ≡ codes
        "commit refs/heads/main\nmark :4\ncommitter <ann> 5 +0000\ndata 1\nm\nfrom :3\nM 100644 :2 a\nD b\n"
unfolding Commit.write Identity.fmt git_cvs_fast_import.Decimal.to_string
test_commit = refl

-- `test_get_last_mark` of git-fast-import/src/mark_file.rs: the lines from the last on.
test_get_last_mark :
    (get_last_mark concrete Complete.concrete (λ reader. some []) [] ≡ ok none)
    × (get_last_mark concrete Complete.concrete (λ reader. some ([] ∷ [])) (codes "\n") ≡ ok none)
    × (get_last_mark concrete Complete.concrete (λ reader. some ([] ∷ codes ":25 012ab" ∷ [])) []
        ≡ ok (some 25))
    × (get_last_mark concrete Complete.concrete (λ reader. some (codes ":25" ∷ [])) []
        ≡ err mark_parsing_error)
    × (get_last_mark concrete Complete.concrete (λ reader. some (codes "25 xx" ∷ [])) []
        ≡ err mark_parsing_error)
unfolding get_last_mark Complete.concrete run_tag run_digit1 parse_u64
test_get_last_mark = (refl, refl, refl, refl, refl)

abbrev mark_lines : Bytes → Option (List Bytes)
mark_lines reader = some ([] ∷ codes ":25 012ab" ∷ codes ":24 fe" ∷ [])

mark_lines-25 : mark_lines [] ≡ some ([] ∷ written_line 25 (codes "012ab") [] ∷ codes ":24 fe" ∷ [])
unfolding to_string
mark_lines-25 = refl

get_last_mark-written_example :
    get_last_mark concrete Complete.concrete mark_lines [] ≡ ok (some 25)
get_last_mark-written_example =
    get_last_mark-written concrete Complete.concrete mark_lines [] ([] ∷ []) (codes ":24 fe" ∷ [])
      25 (codes "012ab") [] mark_lines-25 (refl, tt) (omega arith) (λ nil. cc)
      (refl, (refl, (refl, (refl, (refl, tt))))) tt
