-- ===== src/Discovery/Tests.antt =====
-- src/discovery.rs on concrete inputs: the paths of its test, and a file of three revisions.
use git_cvs_fast_import.Prelude.{
  ℕ, List, [], ◌∷◌, ◌++◌, Option, none, some, Bytes, codes, newline, Bool, true, false,
  if◌then◌else◌, ok, err, panic, ◌≡◌, refl, arith, All,
}
use git_cvs_fast_import.Prelude.Equality.{◌=?◌, nat_eq, list_eq}
use git_cvs_fast_import.Prelude.Assoc.{lookup, or_else}
use git_cvs_fast_import.Time
use git_cvs_fast_import.Paths.{FilePath, root, ends_with}
use git_cvs_fast_import.Num
use git_cvs_fast_import.Num.{Num, num_eq}
use git_cvs_fast_import.Nom.Concrete.{concrete, run_tag, run_digit1}
use git_cvs_fast_import.CommaV
use git_cvs_fast_import.CommaV.Scalar.{Calendar}
use git_cvs_fast_import.CommaV.{Delta, DeltaText}
use git_cvs_fast_import.Patchset.Concrete.{commit_heap, reversed}
use git_cvs_fast_import.Ed.Script
use git_cvs_fast_import.Ed.Command as Header
use git_cvs_fast_import.Decimal.{parse_u64, to_string}
use git_cvs_fast_import.State.FileRevisions
use git_cvs_fast_import.State.Tags
use git_cvs_fast_import.State.Keyed.{empty-IsValid}
use git_cvs_fast_import.State.Manager
use git_cvs_fast_import.State.Tags.{has_id}
use git_cvs_fast_import.Observer.{Observing, start}
use git_cvs_fast_import.Discovery.{FileRevisionHandler, Place, Result}
use git_cvs_fast_import.Discovery.Munge.{
  attic, comma_v, strip_comma_v, munge_raw_path, munge_raw_path-attic,
}
use git_cvs_fast_import.Discovery.Revision.{handle_revision}
use git_cvs_fast_import.Discovery.Seen.{IsRecorded, IsHandled, stored, handle_revision-IsHandled}
use git_cvs_fast_import.Discovery.Fresh.{sent_output, message_of, tags_of, handle_revision-fresh}
use git_cvs_fast_import.Discovery.Tree.{Run, handle_tree}
use git_cvs_fast_import.Discovery.Ends.{Falls, All-IsRanked}
use git_cvs_fast_import.Discovery.Reached.{Reach, Done, IfOk, handle_tree-Reach}
use git_cvs_fast_import.Discovery.Worker.{
  no_symbols, add_symbols, tags_at, branch_named, add_symbols_lem, Worker, System, handle_path,
  work,
}
use git_cvs_fast_import.Discovery.Ignored.{
  IsSettled, AllSettle, is_rcs_file, rcs_files, left_after, work-left_after,
}
use git_cvs_fast_import.Nom.Complete.Concrete as Complete
use git_cvs_fast_import.CommaV.Tests.{long_months}

abbrev foo : Bytes
foo = codes "foo"

abbrev bar : Bytes
bar = codes "bar"

abbrev bar_v : Bytes
bar_v = codes "bar,v"

-- Some of the cases of `test_munge_raw_path`
test_munge_raw_path :
    (munge_raw_path (foo ∷ []) [] ≡ foo ∷ [])
    × (munge_raw_path (codes "foo,v" ∷ []) [] ≡ foo ∷ [])
    × (munge_raw_path (root ∷ foo ∷ bar_v ∷ []) [] ≡ root ∷ foo ∷ bar ∷ [])
    × (munge_raw_path (foo ∷ attic ∷ bar_v ∷ []) [] ≡ foo ∷ bar ∷ [])
    × (munge_raw_path (codes "Attic,v" ∷ []) [] ≡ attic ∷ [])
    × (munge_raw_path (root ∷ foo ∷ attic ∷ []) [] ≡ root ∷ foo ∷ attic ∷ [])
    × (munge_raw_path (root ∷ attic ∷ attic ∷ codes "foo,v" ∷ []) [] ≡ root ∷ attic ∷ foo ∷ [])
    × (munge_raw_path (root ∷ foo ∷ bar ∷ attic ∷ codes "quux,v" ∷ []) (root ∷ foo ∷ bar ∷ [])
        ≡ codes "quux" ∷ [])
    × (munge_raw_path (root ∷ foo ∷ bar ∷ codes "quux,v" ∷ []) (root ∷ bar ∷ [])
        ≡ root ∷ foo ∷ bar ∷ codes "quux" ∷ [])
unfolding munge_raw_path
test_munge_raw_path = (refl, refl, refl, refl, refl, refl, refl, refl, refl)

munge_raw_path-attic_example :
    (munge_raw_path ((root ∷ []) ++ ((foo ∷ []) ++ (bar ++ comma_v) ∷ [])) (root ∷ [])
      ≡ (foo ∷ []) ++ bar ∷ [])
    × (munge_raw_path ((root ∷ []) ++ ((foo ∷ []) ++ attic ∷ (bar ++ comma_v) ∷ [])) (root ∷ [])
        ≡ (foo ∷ []) ++ bar ∷ [])
unfolding ends_with
munge_raw_path-attic_example =
    munge_raw_path-attic (root ∷ []) (foo ∷ []) bar refl (λ e. cc) (λ e. cc)

abbrev lossy : Bytes → Bytes
lossy s = s

abbrev r_1_1 : Num
r_1_1 = Num.commit (1 ∷ 1 ∷ [])

abbrev r_1_2 : Num
r_1_2 = Num.commit (1 ∷ 2 ∷ [])

abbrev r_1_1_2_1 : Num
r_1_1_2_1 = Num.commit (1 ∷ 1 ∷ 2 ∷ 1 ∷ [])

abbrev delta_of : ℕ → Bytes → List Num → Option Num → Delta
delta_of date state branches next = record {
  date = date;
  author = codes "ann";
  state = some state;
  branches = branches;
  next = next;
  commit_id = none;
}

abbrev text_of : Bytes → DeltaText
text_of text = record { log = codes "fix"; text = text }

-- The head 1.2, the revision 1.1 below it, and a dead one on a branch from there.
abbrev rcs_file : CommaV.File
rcs_file = record {
  admin = record {
    head = some r_1_2;
    branch = none;
    access = [];
    symbols = [];
    locks = [];
    strict = true;
    integrity = none;
    comment = none;
    expand = none;
  };
  delta =
      (r_1_2, delta_of 20 (codes "Exp") [] (some r_1_1))
      ∷ (r_1_1, delta_of 10 (codes "Exp") (r_1_1_2_1 ∷ []) none)
      ∷ (r_1_1_2_1, delta_of 30 (codes "dead") [] none)
      ∷ [];
  desc = [];
  delta_text =
      (r_1_2, text_of (codes "a" ++ newline ∷ codes "b" ++ newline ∷ []))
      ∷ (r_1_1, text_of (codes "d2 1" ++ newline ∷ []))
      ∷ (r_1_1_2_1, text_of (codes "a1 1" ++ newline ∷ codes "c" ++ newline ∷ []))
      ∷ [];
}

abbrev rank : Num → ℕ
rank n = if n =? r_1_2 then 2 else if n =? r_1_1 then 1 else 0

abbrev handler : FileRevisionHandler
handler = record {
  branches =
      (codes "main", Num.branch (1 ∷ [])) ∷ (codes "stable", Num.branch (1 ∷ 1 ∷ 2 ∷ [])) ∷ [];
  revision_tags = (r_1_1, codes "v1" ∷ []) ∷ [];
  real_path = foo ∷ [];
}

abbrev empty_place : Place commit_heap
empty_place = record {
  observing = start commit_heap Manager.new;
  output = record { written = []; next_mark = 1 };
}

abbrev walked : Option (Result commit_heap (Place commit_heap))
unfolding handle_tree
walked =
    handle_tree commit_heap concrete reversed lossy 60 handler rcs_file 3 none r_1_2 empty_place

-- The mark of a revision in the state, and its branches.
abbrev seen_as :
    Option (Result commit_heap (Place commit_heap)) → Bytes → Option (Option ℕ × List Bytes)
unfolding Manager.get_file_revision FileRevisions.get_by_key
seen_as (some (ok p)) revision =
    elim (Manager.get_file_revision (foo ∷ []) revision p.observing.state) [
      | ok r ↦ some (r.mark, r.branches)
      | err e ↦ none
      | panic ↦ none
    ]
seen_as _ revision = none

test_handle_tree :
    (seen_as walked (codes "1.2") ≡ some (some 1, codes "main" ∷ []))
    × (seen_as walked (codes "1.1") ≡ some (some 2, codes "stable" ∷ codes "main" ∷ []))
    × (seen_as walked (codes "1.1.2.1") ≡ some (none, codes "stable" ∷ []))
unfolding walked seen_as FileRevisions.get_by_key Script.next Script.dispatch Header.parse run_tag
    run_digit1 parse_u64 Manager.add_file_revision FileRevisions.add to_string Script.payload
    Script.take_lines Manager.add_tag
test_handle_tree = (refl, refl, refl)

-- After a second walk with another tag for 1.1, the tag is not there: the revisions have been seen.
abbrev walked_again :
    Result commit_heap (Place commit_heap) → Option (Result commit_heap (Place commit_heap))
unfolding handle_tree
walked_again (ok p) =
    handle_tree commit_heap concrete reversed lossy 60
      (record handler { revision_tags = (r_1_1, codes "v2" ∷ []) ∷ [] }) rcs_file 3 none r_1_2 p
walked_again r = some r

abbrev tagged : Option (Result commit_heap (Place commit_heap)) → Bytes → Option (List ℕ)
unfolding Manager.get_file_revisions_for_tag
tagged (some (ok p)) tag = Manager.get_file_revisions_for_tag tag p.observing.state
tagged _ tag = none

abbrev first_walk : Result commit_heap (Place commit_heap)
unfolding walked
first_walk = elim walked [ some r ↦ r | none ↦ panic ]

test_second_walk :
    (tagged (walked_again first_walk) (codes "v1") ≡ some (1 ∷ []))
    × (tagged (walked_again first_walk) (codes "v2") ≡ none)
unfolding first_walk walked_again tagged FileRevisions.get_by_key Script.next Script.dispatch
    Header.parse run_tag run_digit1 parse_u64 Manager.add_file_revision FileRevisions.add to_string
    Script.payload Script.take_lines Manager.add_tag Tags.get_file_revisions Tags.add_tag
test_second_walk = (refl, refl)

deltas_lead_down : All (λ entry. Falls rank entry.0 entry.1) rcs_file.delta
deltas_lead_down = ((omega arith, tt), ((tt, (omega arith, tt)), ((tt, tt), tt)))

handle_tree-Reach_example :
    (out : Result commit_heap (Place commit_heap)) × (handle_tree commit_heap concrete reversed
        lossy 60 handler rcs_file 3 none r_1_2 empty_place
      ≡ some out)
    × IfOk commit_heap handler
        (Done commit_heap handler (λ q. Reach rcs_file q r_1_2) empty_place)
        out
handle_tree-Reach_example =
    handle_tree-Reach commit_heap handler concrete reversed lossy 60 rcs_file rank 3 none r_1_2
      empty_place (All-IsRanked rcs_file rank deltas_lead_down) (omega arith) empty-IsValid

abbrev exp_delta : Delta
exp_delta = delta_of 10 (codes "Exp") [] none

handle_revision-fresh_example :
    let (mark, output) = sent_output commit_heap (codes "a") exp_delta empty_place.output in
    let r = stored commit_heap (
      message_of commit_heap reversed lossy 60 handler
        (1 ∷ 1 ∷ [])
        (codes "a")
        exp_delta
        (text_of [])
        empty_place.output) in
    (id : ℕ) × (observing : Observing commit_heap) × (handle_revision commit_heap reversed lossy 60
        handler
        (codes "a")
        r_1_1
        exp_delta
        (text_of [])
        empty_place
      ≡ ok (mark, record { observing = observing; output = output }))
    × IsRecorded observing.state (foo ∷ []) (Num.fmt r_1_1) r
    × (Manager.get_file_revision_by_id id observing.state ≡ ok r)
    × All
        (λ t. has_id t id observing.state.tags ≡ true)
        (tags_of commit_heap reversed lossy 60 handler (1 ∷ 1 ∷ []))
unfolding Manager.get_file_revision FileRevisions.get_by_key
handle_revision-fresh_example =
    handle_revision-fresh commit_heap reversed lossy 60 handler (codes "a") (1 ∷ 1 ∷ []) exp_delta
      (text_of []) empty_place _ tt (tt, (tt, tt)) (omega arith) empty-IsValid refl

abbrev after_fresh : Option ℕ × Place commit_heap
unfolding handle_revision
after_fresh =
    elim (handle_revision commit_heap reversed lossy 60 handler (codes "a") r_1_1 exp_delta
      (text_of []) empty_place) [
        | ok out ↦ out
        | err e ↦ (none, empty_place)
        | panic ↦ (none, empty_place)
      ]

handle_revision-IsHandled_example :
    IsHandled commit_heap reversed lossy 60 handler r_1_1 empty_place after_fresh
unfolding handle_revision after_fresh FileRevisions.get_by_key
handle_revision-IsHandled_example =
    handle_revision-IsHandled commit_heap reversed lossy 60 handler (codes "a") r_1_1 exp_delta
      (text_of []) empty_place after_fresh empty-IsValid refl

add_symbols_lem_example :
    ((revision : Num)
      → or_else
          (lookup revision (add_symbols no_symbols ((codes "v1", r_1_1) ∷ [])).revision_tags)
          []
        ≡ tags_at revision ((codes "v1", r_1_1) ∷ []))
    × ((name : Bytes)
        → lookup name (add_symbols no_symbols ((codes "v1", r_1_1) ∷ [])).branches
          ≡ branch_named name none ((codes "v1", r_1_1) ∷ []))
add_symbols_lem_example = add_symbols_lem ((codes "v1", r_1_1) ∷ [])

-- The text of a file of one revision.
abbrev pub rcs_text : Bytes
rcs_text =
    codes
      "head 1.1;\naccess;\nsymbols;\nlocks;\n\n1.1\ndate 98.08.11.19.08.27;\nauthor ann;\nstate Exp;\nbranches;\nnext ;\n\ndesc\n@@\n\n1.1\nlog\n@fix@\ntext\n@hi@\n"

abbrev pub since_epoch : Calendar
since_epoch = record {
  NaiveDate = ℕ;
  from_ymd_opt = long_months.from_ymd_opt;
  and_hms_milli_opt = λ day hour minute second milli. some Time.unix_epoch;
}

-- A directory, a file, another that cannot be read, one that is none of RCS, and a file again.
abbrev cvs_paths : List FilePath
cvs_paths =
    (codes "dir" ∷ [])
    ∷ (codes "one,v" ∷ [])
    ∷ (codes "bad,v" ∷ [])
    ∷ (codes "notes" ∷ [])
    ∷ (codes "two,v" ∷ [])
    ∷ []

abbrev some_system : System
some_system = record {
  read = λ path. if path =? (codes "bad,v" ∷ []) then none else some rcs_text;
  is_dir = λ path. some (path =? (codes "dir" ∷ []));
  as_os_str = λ path. elim path [ [] ↦ [] | name ∷ names ↦ name ];
}

abbrev ignoring : Worker
ignoring = record { prefix = root ∷ []; head_branch = codes "main"; ignore_errors = true }

abbrev settles : Run commit_heap → Bool
settles none = false
settles (some panic) = false
settles (some _) = true

settles-IsSettled : (run : Run commit_heap) → settles run ≡ true → IsSettled run
settles-IsSettled none e = absurd cc
settles-IsSettled (some panic) e = absurd cc
settles-IsSettled (some (ok p)) e = (ok p, refl, λ h. cc h)
settles-IsSettled (some (err p)) e = (err p, refl, λ h. cc h)

cvs_files :
    rcs_files some_system cvs_paths
    ≡ (codes "one,v" ∷ []) ∷ (codes "bad,v" ∷ []) ∷ (codes "two,v" ∷ []) ∷ []
unfolding rcs_files is_rcs_file strip_comma_v
cvs_files = refl

cvs_files-AllSettle :
    AllSettle commit_heap concrete Complete.concrete since_epoch reversed lossy some_system 60
      ignoring 2
      (rcs_files some_system cvs_paths)
      empty_place
unfolding AllSettle rcs_files is_rcs_file strip_comma_v handle_path Complete.concrete run_tag
    run_digit1 FileRevisions.get_by_key Manager.add_file_revision FileRevisions.add parse_u64
    to_string
cvs_files-AllSettle =
    (settles-IsSettled _ refl, (settles-IsSettled _ refl, (settles-IsSettled _ refl, tt)))

work-left_after_example :
    work commit_heap concrete Complete.concrete since_epoch reversed lossy some_system 60 ignoring 2
      cvs_paths empty_place
    ≡ some (
        ok (
          left_after commit_heap concrete Complete.concrete since_epoch reversed lossy some_system
            60 ignoring 2
            (rcs_files some_system cvs_paths)
            empty_place))
work-left_after_example =
    work-left_after commit_heap concrete Complete.concrete since_epoch reversed lossy some_system 60
      ignoring 2 cvs_paths empty_place refl
      ((true, refl), ((false, refl), ((false, refl), ((false, refl), ((false, refl), tt)))))
      cvs_files-AllSettle
