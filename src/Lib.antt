-- ===== src/Lib.antt =====
-- cmdshape runs a command, passes the lines of its output through a filter as they come, and prints
-- what the filter leaves. A model of its core, with what makes it correct.
--
-- Parts, files and code
--   Base              what the files share, and the functions of Go's standard library that the code
--                     calls: strings (join, split, cut, contains, replace_all, trim_space, to_lower).
--   Contracts         internal/contracts/types.go and internal/filters/passthrough.go. A filter is a
--                     record of callbacks that pass its state along, for any type of states.
--   Engine.Buffer     internal/engine/buffer.go, a function per method; the counts map is one count
--                     per stream. Sequences are uint64 and wrap around.
--   Engine.State, Engine.Stream, Engine.Exit
--                     internal/engine/engine.go. A method of State becomes a function from the state
--                     to its results and the state behind. Stream has applyStream, cut at its early
--                     returns; Exit has Exit, exitActions and what they call.
--   Engine.Run        a whole run: the events of the two streams in any order, then the exit, as in the
--                     loop of replaySequenceWithExitCode in internal/runner.go. The mutex of State
--                     makes concurrent readers handle one line at a time; each such order is a list
--                     of events.
--   Records           the records that a stream is read in: ReadStreamRecord and CompleteStreamRecord of
--                     internal/replay/fixture.go, and the loop of drainStream in internal/runner.go.
--                     The reader is the bytes still to come; an error of reading ends it.
--   Redact            internal/runner.go: redactConfidential, and the redactingWriter with its stages.
--   Replay            internal/replay/fixture.go: the recording of events as a text for each stream.
--                     Numbers, Payload and Lines are about one line, Merge about the two texts, Merged
--                     about reading them side by side; Base64 is Go's standard encoding.
--   Recovery          internal/recovery/recovery.go: Store, prepareRecoveryEvents and rotate. The directory
--                     is the list of its entries; Order, Kept and Newest are about the rotation, Stored
--                     about what is written.
--   Upgrade           internal/lifecycle/upgrade.go: resolveUpgradeVersion, rejectDowngrade,
--                     checksumForAsset, the comparison of verifyDownloadedAssetChecksum, and the
--                     checks of extractBinaryFromZip. The latest tag of the service, the text of the
--                     list, the digest of the archive and its entries are arguments. Checksums,
--                     Forward and Archive hold the proofs.
--   Metrics           internal/metrics/store.go and spool.go. Bytes, Record and Decode are the encoding
--                     of a run's record, Reads, Stored and RoundTrip what comes back, Keys the order of
--                     the keys; Store has the transactions, Queries the scan, the summaries and their
--                     rows, Totals what they add up; Sums says the same rows in sums.
--   Engine.Registry   internal/engine/registry.go. A map is an association list.
--   CommandLine       internal/parser.go: Split is the splitter, a state machine over runes; Render the
--                     way back; Tool the canonical names; Parse the commands.
--   Version           internal/version/semver.go. Decimal models ParseUint and %d on uint64.
--   Operations        internal/filters/operations: the tests on arguments, and View the argument view.
--   Cli               internal/cli/parse.go: the program's flags, Managed its own commands, Redactions
--                     the value of --confidential, Shape what is said of a command.
--   Yaml              internal/filters/yaml/yaml_filter.go: Model the compiled filter, Template maps and
--                     placeholders, Lines the rules for one line, Groups the collecting of lines,
--                     Arguments the tests and changes of a command (Logic, Flags
--                     and Holds state the tests), Cases the state per invocation,
--                     Render what groups print within their limits, Exit the actions at the exit and
--                     the filter as the engine calls it.
--
-- How they interact: Engine calls a Contracts filter with the context of its own state. Yaml is such a
-- filter; its cases are chosen by Operations. A command line from CommandLine is resolved to a filter
-- by the name of its tool. Each record of Records is a line of Engine.Run. What is printed goes through
-- Redact. The output of a failed command is stored by Recovery as a Replay. The record of a run goes
-- into the Store as Record encodes it, and Queries decode it again. Upgrade compares what Version
-- parses.
--
-- Representation: a text is a list of bytes, or of code points where the code ranges over runes. An
-- int that the code keeps at zero or above is a natural number; the counters in a YAML filter's
-- variables are 64-bit numbers, written as what they are below 2 ^ 64. A pattern of Go's regexp is a
-- record of its answers. A Go map that the code walks is a list in the order of the walk, which Go
-- leaves open: the theorems hold for every order. Where the code panics, the result is none; an index
-- that an invariant keeps in range changes nothing out of it.
--
-- The database library is a record of a bucket's operations with the laws that its documentation
-- gives; JSON is two functions on the sources of a registry, read back where a theorem says so. An
-- int64 of a record is an integer, one that the code adds up is the word that holds it.
--
-- Fuel: format_uint has as much as the number, which has no more digits than that; the loop of
-- containsSequence has one round per place, as in the code; the loop of drainStream has as many rounds
-- as there are bytes, of which each round takes one at least; that of
-- streamingReplacer.drain one round more than bytes; a recording has no more events than bytes, which
-- bounds the loops that read one. All else is structural.
--
-- Not modelled: processes, pipes, files and terminals; the reading, checking and compiling of YAML
-- definitions; the files of metrics and their reports by period, filter and registry; the files of
-- recoveries; the trust in project filters; the lifecycle commands beyond what Upgrade names; the
-- files and commands of replays, and benchmarks.
pub mod Base
pub mod Contracts
pub mod Engine
pub mod CommandLine
pub mod Upgrade
pub mod Version
pub mod Metrics
pub mod Recovery
pub mod Redact
pub mod Replay
pub mod Records
pub mod Operations
pub mod Cli
pub mod Yaml
