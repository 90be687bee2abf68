-- ===== src/Lib.antt =====
-- mysqlmonitoring: a model of the core of the MySQL monitor, with the theorems about it.
--
-- The program polls a MySQL server, keeps what it reads in bounded series, looks for locks that
-- block each other, and can kill a connection. Its parts, and the files that model them:
--
-- internal/series: Series/Ring (RingBuffer), Series/Sample (the sample types), Series/Sink
--   (RingSink over a ring) and Series/Registry (the entries per digest, with a cap). A ring is its
--   storage, its write position and whether it has wrapped. The registry holds a sink per digest,
--   and evicts by load. Touch and Append are `touch` and `append`, the eviction is `evict`.
--
-- internal/collector/digest.go: Collector/Digest. `poll` takes the rows of one read of the digest
--   table, and writes samples through the registry.
--
-- internal/db/db.go: Db, the rows that the other parts read.
--
-- internal/detector/lock_chain.go: Detector/LockGraph (BuildLockGraph, FindCycles) and
--   Detector/LockChains (FindChains), over the lock waits of a snapshot, and Detector/LockIssues
--   (Detect), which makes issues of them.
--
-- internal/detector: Detector/Issues (severities, issues and their text), Detector/LongTransaction,
--   Detector/Deadlock and Detector/DdlConflict, one for each detector. The deadlock detector has a
--   state, the timestamp that it has reported last.
--
-- internal/monitor/monitor.go: Monitor. `take_snapshot` makes the calls of Snapshot one by one, and
--   runs the four detectors over the snapshot.
--
-- internal/insights/mdl.go: Insights/Mdl (BuildMDL, Find, PositionOf, BlockersOf and the matrix).
--
-- internal/explain/safe.go: Explain/Safe (SafeVerb and the stripping of comments before it).
--
-- internal/killer/killer.go: Killer (Kill and its checks).
--
-- internal/collector: Collector/AppTag (apptag.go), Collector/Waits (waits.go and classify.go),
--   Collector/Cpu (cpu.go) and Collector/Health (health.go). The wait collector and the CPU sampler
--   each hold the same wait series, which is a field of both here.
--
-- internal/insights/insights.go: Insights/Engine (New, Probe and the loops of Run). The loops run
--   side by side in Go; here a run is a list of their rounds, in any order, and `step` is one round.
--   After each round that writes the wait series, both of its holders have it.
--
-- internal/db: Db/Dsn (dsn.go) and Db/MyCnf (mycnf.go).
--
-- internal/tui: Tui/Rows (buildIssueRows of issues.go), Tui/Text (parseDuration and the other
--   helpers of views.go), Tui/Tables (buildTableRows of tables.go), Tui/Tree (buildTreeEntries of
--   views.go), Tui/Keys with Tui/Keys/Dispatch (handleKey of model.go, with the keys of each view and
--   of the popup that confirms a kill), and Tui/Updates (Update for the results of a poll and of a
--   kill). `handle_key` gives the model after a key and the command that the program is to run. The
--   record World holds what the keys read and the model does not keep: the rows of the load panel,
--   and the orders in which Go meets the keys of its maps or leaves ties in a sort. Of a row of the
--   lock tree the connection and the blocker mark are kept, which is all that the keys read.
--
-- Prelude holds what these share: numbers and their tests, lists, byte strings, integers and a
--   stable sort.
--
-- A method of Go is a function of the same name, in snake case, from the state before it to the
-- state after it. A method is one step, also where it takes a
-- mutex more than once. A map is an association list, and where Go
-- iterates over a map, in no fixed order, the order is an argument. uint64 values are natural
-- numbers whose arithmetic is taken modulo 2^64; Go's int and Duration are integers without a
-- bound; times are nanoseconds since the zero time. Strings are lists of bytes.
--
-- The loop over leading comments takes fuel, one more than the text has bytes: a round that goes on
-- has consumed at least one. The searches through the lock graph take fuel, one more than there
-- are keys in the graph. This is enough, since a call without waiters calls nothing, and every other
-- call on the way stands at a key that was not met before.
--
-- Text is written out byte by byte, upper case and blanks are those of ASCII. The one float64
-- that a modelled function computes, d.Seconds() in formatDuration, is rounded as Go rounds it. A
-- negative count of participants in the text of a deadlock, on which make panics, gives no row.
--
-- Functions of Go's library and of third-party packages are arguments where the code rests on more
-- than their names say: url.Parse, url.QueryUnescape, time.ParseInLocation, strconv.Atoi in the
-- option file, and the regular expression that finds a table in a query.
--
-- Not modelled: the SQL and the drivers, the parser of the InnoDB status (regular expressions), the
-- collector for CloudWatch (an AWS client), the loop of monitor.Run, the aggregates of
-- internal/insights/aggregate.go (floating point), the explain engine, the rendering of the
-- terminal views, the messages for the load panel and for an EXPLAIN, the command line, printing, and
-- the wall clock.
-- What the database answers is an argument; a call that fails hands back the zero value beside its
-- error.
pub mod Prelude
pub mod Series
pub mod Db
pub mod Detector
pub mod Insights
pub mod Killer
pub mod Collector
pub mod Monitor
pub mod Explain
pub mod Tui
