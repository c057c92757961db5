-- ===== src/Lib.antt =====
-- A verification library for git-cvs-fast-import, which imports a CVS repository into git: it reads
-- the RCS files, rebuilds the contents of their revisions, groups the revisions of single files into
-- patchsets, and sends these as commits to `git fast-import`, with a state that is kept between runs.
--
-- The parts, and the files that model them:
-- * patchset/src/lib.rs, the detector of patchsets: Patchset (the data and operations), Patchset/Heap
--   (the heaps and the order of a hash map, as parameters), Patchset/Runs (the independent description
--   of how commits are grouped), Patchset/Loop (one bucket), Patchset/Detect (the detector) and
--   Patchset/Content (the files of a patchset).
-- * rcs-ed/src, the ed scripts between revisions: Ed/Reader (lines of bytes), Ed/Command (command.rs),
--   Ed/Script (script.rs) and Ed/File (lib.rs); Ed/Edit is the independent line editor, Ed/Edit/Apply
--   its agreement with `File::apply`, Ed/Bytes is on `File::new`, Ed/Length on `calculate`, Ed/Print
--   and Ed/RoundTrip on the parsers. Nom has the parser combinators as parameters.
-- * comma-v/src, RCS files: Num (num.rs), with Num/Contains and Num/Text on it, CommaV (types.rs),
--   CommaV/Char, Scalar and Parser (the parsers of these names and of mod.rs), and CommaV/Text and
--   RoundTrip on what they read back. Nom/Complete has more combinators as parameters.
-- * internal/state/src, the state: State (the shared data), State/IdSet and State/Members (sets of
--   ids), State/FileRevisions and State/Keyed (file_revision.rs), State/Patchsets and State/Recorded
--   (patchset.rs), State/Tags (tag.rs), State/Manager and State/Latest (lib.rs).
-- * git-fast-import/src, the stream to git: FastImport (the writer, lib.rs and mark.rs), with
--   FastImport/Identity, Blob, Commit and Tag for the files of these names; FastImport/Read is an
--   independent reader of blobs, FastImport/Build is on the commit builder, FastImport/MarkFile (with
--   LastMark on it) is mark_file.rs.
-- * src/main.rs, tag.rs and branch.rs, what is sent to git: Import (the output of
--   internal/process/src/lib.rs and the branch filter), Import/Patchsets (`send_patchsets`) with
--   Import/Patchsets/Heads on the state that it leaves, and Import/Tags (the tag processor and
--   `send_tags`) with Import/Tags/Again on a second run;
--   Import/Ready, Import/Patchsets/Total and Import/Tags/Total are on their success.
-- * src/observer.rs, the observer: Observer, and Observer/Branches on what the collector has for a branch.
-- * src/discovery.rs, the discovery of files: Discovery (what its steps share), Discovery/Munge (the path of a file),
--   Discovery/Revision (`handle_revision`), with Seen and Fresh on it, Discovery/Tree (`handle_tree`),
--   with Ends and Reached on it, and Discovery/Worker (`handle_path` and the loop of a worker), with
--   Discovery/Ignored on its errors.
-- * src/main.rs, the flow of `main`: Main, from the last mark over the discovery of all paths, the
--   patchsets and the tags to the marks that are kept, and Main/Sent on its loop over the branches. One
--   worker takes the paths, and all are sent before it starts; an error of its task is lost, as in the
--   program; a panic of the task is lost there too, but the model does not follow the run from it on. A mark file that cannot be read ends `main` at its start; in the program, the task of the
--   output ends, and `main` with it when it sends to the task or waits for it.
-- Prelude has what the parts share: tests, lists, results, maps. Decimal, Time and Paths model what
-- the program uses of the standard library's numbers, times and paths. The modules named Tests hold
-- examples.
--
-- A function has the name of the Rust function; a struct is a record, an enum a data type. A
-- `Result` is an `Outcome`, where `panic` is a panic of arithmetic, an index or `unwrap`; `usize`
-- and `u64` have 64 bits and their overflow is a panic, as in a build with overflow checks. Bytes
-- and text are lists of byte values; a path is the list of its components, and its text is a
-- parameter. A `HashMap` or `BTreeMap` is an association list, and a `BTreeSet` an ascending list;
-- where the order of a hash map shows, it is a parameter.
--
-- Fuel: `read_lines` takes one more than the length of the input, since each round but the last
-- consumes a byte; `collect` of a script takes one more than the number of lines left, since each
-- round consumes a line; the digits of `n` take at most `n + 1` rounds. Each is proved to be
-- enough. `handle_tree` takes one for each revision on the way, and comes to an end if the deltas
-- of the file lead nowhere twice; on a file whose `next` goes round it does not, as in the program.
--
-- Parameters: `BinaryHeap` (a heap with its sorted contents), the order of a `HashMap`, the
-- combinators of nom, the calendar of chrono, `String::from_utf8_lossy`, `str::from_utf8`,
-- `Path::display`, the reading of files and of their metadata, the crates walkdir and rev_lines, the
-- time, and the marks that git writes. Each of the laws assumed is met
-- by a concrete instance in the examples.
--
-- Not modelled: reading and writing of files, serialisation, locks, threads and channels, the child
-- process, logging and the command line. The observer's messages and the discovery's tasks are
-- taken one after another.
pub mod Prelude
pub mod Time
pub mod Paths
pub mod Decimal
pub mod Num
pub mod Nom
pub mod Ed
pub mod Patchset
pub mod CommaV
pub mod Observer
pub mod Discovery
pub mod State
pub mod FastImport
pub mod Import
pub mod Main
