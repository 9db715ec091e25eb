-- ===== src/Lib.antt =====
-- pgvolvra: a companion of PostgreSQL that archives a stream of changes (companion/, in Go), and a
-- command line that previews and applies undos (cli/, in Go). This library models both.
--
-- The companion receives the changes of a publication from a replication slot (companion/stream.go),
-- and appends each to an archive (companion/archive.go): a directory of segment files, one line of
-- JSON per change, and a manifest with the hash of each segment and a chain over the hashes. Full
-- segments are sealed, and uploaded to a bucket where there is one (companion/remote.go), the manifest
-- after them. What the archive says that it has durably is acknowledged to the server, which may then
-- discard its log. A guard (companion/safety.go) advances the slot past a ceiling of retained log, and
-- has the gap recorded. The command run (companion/main.go) puts these together. Verification
-- (companion/verify.go) and restore (companion/restore.go) read an archive from the directory or the
-- bucket (companion/source.go). The command line (cli/main.go) scans its arguments, sends statements
-- with bind parameters to the database (cli/commands.go, cli/undo.go, cli/db.go), and prints tables
-- (cli/table.go).
--
-- The files:
--   Base      shared: Boolean tests, lists, byte strings, maps with byte-string keys
--   Exec      Go functions with state and errors: the state comes back with the result or the error;
--             Exec/Laws has the triples that the proofs are made of
--   Format    the archive's data, and the record Platform of what the libraries compute (JSON, SHA-256,
--             base64, times, log positions), with the hypotheses IsFaithful on them; Format/Names has
--             hexadecimal texts and file names
--   World     the directory, the bucket and the clock. Each call can fail, a failing write may leave a
--             part of its bytes and a failing upload may have been stored: which calls fail is a
--             function of the call's number over which the theorems range
--   Lines     bufio.Scanner with the 64 MiB buffer
--   Remote    uploads and their confirmation (PutSegment, confirm); Remote/Making has NewRemote,
--             resolveChecksum and resolveLock, Remote/Keys the names of objects; Remote/Hosts is on
--             the endpoint's host, Remote/Injective on the names
--   Archive   the writer: its state, ResumeLSN, open; Archive/Upload has pushRemote, Archive/Writer
--             Append, Rotate and Close, Archive/Opening OpenArchive. Archive/Segments, State,
--             Positions, History, Durable and Backed say what holds between the writer's state, the
--             directory and the bucket; Uploading, Push, Rotation, Appending, Opened, Reopened and
--             Resume prove what each operation does to that, Frame, Pending and Sealed what is left
--             undone by an upload and by the closing, and Session what any sequence of calls does
--   Source    Open, Local and ReadManifestFrom
--   Verify    VerifyArchive; Verify/Order says what the order of segments is, Verify/Judged and
--             Verify/Sound prove what a verification establishes
--   Restore   RestoreArchive, normaliseSQL, quoteLiteral; Restore/Quote is on the literals
--   Feed      handle, emit, tupleToMap, replayed, and the status report; Feed/Run has EnsureSlot
--             and Run. Feed/Columns is on rows, Feed/Naming on the quoted names, Feed/Described
--             says what a message is to be recorded as, Feed/Emitted, Feed/Handled and Feed/Growing
--             are on the messages, Feed/Reported on the position that is acknowledged, Feed/Account
--             and Feed/Loop on the loop
--   Guard     SlotGuard.Check; Guard/Laws is on the gap
--   Companion the commands verify and restore of companion/main.go; Companion/Running has openSource
--             and cmdRun, Companion/Prepared and Companion/Acknowledged are on it
--   Recovery  what verification and restore make of a directory that the writer left; Recovery/Working
--             is on the writer where nothing fails, with Archive/Succeeding
--   Cli       Cli/Session has Query and Count of cli/db.go over the database's answers, Cli/Selector
--             and Cli/Undo are cli/selector.go and cli/undo.go, Cli/Statement has the statements and
--             Cli/Command the commands of cli/commands.go, Cli/Entry is cli/main.go, Cli/Render
--             cli/table.go, Cli/Value and Cli/Float the values of cli/db.go. Cli/Rounding is on the
--             seconds of these, Cli/Selected, Confirmed and Erasure are on single commands; Cli/Safe,
--             Orderly, Sent, Modest, Codes and Scanned on the whole program; Cli/Widths and Aligned
--             on tables
--   Tests     a concrete platform, concrete states, and each theorem there
--
-- A byte string is a list of numbers, a time a number of nanoseconds, a log position a number. Loops
-- are structural recursion, there is no fuel: the loop of the stream is over the turns that the outside
-- takes, and ends at a cancellation, an error or the last of them. Counters are unbounded: Go's are 64
-- bits wide, and count bytes and changes. `digits` in Format/Names has a bound for the digits past the
-- width, the number itself, which has fewer digits than that; `shift_of` in Cli/Float tries the 26
-- exponents that one microsecond needs.
--
-- The history of an archive is the list of the changes that were appended. `Durable` says that the
-- directory's manifest names the writer's segments, that their files and the open file hold the
-- history in order, with hashes, chain and the positions of the first and last change, that the
-- bucket has the segments that are marked as uploaded, and that the bucket's manifest names as many
-- segments as the writer believes. `Safe` is the part of it on the bucket, which is left after an
-- error. A bucket is a map from the names of the archive's members; Remote/Keys has the objects'
-- keys.
--
-- Not modelled: connections and queries of the catalog (their answers are parameters); of
-- companion/main.go the flag package's reading of options and the command status, which prints one
-- query; log lines; the connections of cli/db.go. The commands have an error of the database as
-- one that a query failed, without its words. The fsync of the directory is best effort in the
-- code and has no effect here; the open file's records are written, and synced when it is sealed, so
-- that what is said of an open file is of a process that ends, not of a machine that loses power. A
-- source does not change during one reading of it, by a verification or by a restore; the restore's
-- own reading, behind the verification's, may find another. The SQL in sql/ is not Go code;
-- the programs send statements to it.
pub mod Base
pub mod Exec
pub mod Lines
pub mod Format
pub mod World
pub mod Remote
pub mod Archive
pub mod Source
pub mod Verify
pub mod Restore
pub mod Recovery
pub mod Companion
pub mod Feed
pub mod Guard
pub mod Cli
pub mod Tests
