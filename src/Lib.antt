-- ===== src/Lib.antt =====
-- oscar-corrtest drives correlation tests against an OSCAR server. A scenario document describes cases
-- that should or should not correlate; a run injects the alerts of the cases, observes what the server
-- makes of them, and cleans up; a local journal in SQLite records runs, their events and what they have
-- created outside. This library models the parts of the program that decide: which scenarios are
-- accepted, which moves a run may make, what a load of SNMP traps sends, how an observation is
-- scored, what the journal, the managed environment file and the log keep, and how runs are named.
--
-- How the parts interact: the validation of a scenario expands each case into observations and scans
-- them for the pattern that the scenario names. The journal asks the lifecycle whether a transition is
-- allowed, and, when it recovers the runs of a process that died, asks from status, report and events
-- whether a run may have sent alerts.
--
-- Base: lists, tests, texts and results over the native numbers, and Go maps as association lists.
-- Run: internal/domain/run.go, the statuses and `CanTransition`; Run/Responsibility models
--   internal/domain/input_responsibility.go, whether a run may have sent alerts (`PossibleAlertInputs`);
--   Run/Facts is internal/domain/evidence.go with artifact.go, the facts of an execution, and Run/Ids id.go,
--   the identifiers of runs.
-- Scenario: internal/scenario/model.go; Scenario/Names and Scenario/Validate the `Validate` of decode.go with
--   checkpoints.go, no_match.go and contract.go; Scenario/Semantics the eight patterns of semantics.go.
-- Snmp: internal/snmpload/plan.go, `Options.Validate`, `Fixture` and `Compile`; Snmp/Observe is `Reconcile` of
--   internal/snmpload/observe.go, with the history rows of internal/oscar/types.go.
-- Store: internal/persistence/sqlite/run_repository.go and input_attempt.go, one function for each method
--   that writes; Store/Retention is the test of `PreviewRetention` in internal/runtime/runtime.go, and
--   Store/Resources is internal/domain/resource.go with resource_repository.go, Store/Documents the two methods
--   that store a compiled plan, and Store/Execution is execution_repository.go, `FinalizeRun`.
-- Runner: internal/runner/assertions.go and the loop of `observe` in observation.go, with the verdict over
--   the cases and `cleanup` in runner.go (Runner/Cleanup), which writes to the tables of Store.
-- Envfile: internal/envfile/store.go, the managed environment file. Envfile/Text and Envfile/Quote are the
--   functions of Go's strings and strconv that it calls, Envfile/Line one line of the file, and
--   Envfile/Overlay the methods of `Store`.
-- Control: internal/compiler/no_match.go, `ValidateControlExclusion`, with the fields of the plan in
--   internal/compiler/compiler.go that it reads.
-- Rotation: internal/applog/rotate.go, the log file with its backups, which are its slots.
-- Examples: concrete inputs, on which the definitions are evaluated and the theorems applied.
--
-- How state and operations correspond. Loops over Go slices and maps are recursions on lists; the loop
-- variables of `Compile` are the record Snmp.Load, those of the event loop of `Validate` the record
-- Sources. Errors are values: a result is `ok` or the error, whose text is left out. The tables of the
-- journal are the lists of Store.Db; each SQL statement is a function on them, and the constraints of the
-- schema that it can violate are errors. Every call on the database may fail: a test `broken` says which
-- calls do, and the theorems hold for every such test. A transaction works on a copy, so a failed
-- operation leaves the tables as they were (`settle`). Times are counts of nanoseconds, the zero time is
-- `none`, and a JSON document is what the code decodes from it.
--
-- A text of the managed file is the list of its code points, and its size is counted in bytes of UTF-8. A
-- quoted value whose escapes give a single byte of 128 or above, which is no code point, is an error of its
-- own in the model (`raw_byte`) where the code takes the byte. The
-- table of printable characters, case folding (`strings.EqualFold`), the environment of the process and
-- the file system are parameters. A Go map that is compared as a whole is the list of its entries in the
-- order of the keys, with no difference between a nil and an empty map. A row of the case, assertion and
-- attempt tables is a Child with its columns; the columns of the other tables are left out.
--
-- Bounds and fuel. Numbers are unbounded naturals: offsets, windows, counts and times that the code has
-- refused as negative are not represented, and the limits of the validation keep sums far below the range
-- of a 64-bit integer; the accumulator of `NewRunID` keeps the wrap-around of its 32 bits.
-- `Base.Text.decimal` prints a number n with n + 1 steps of fuel, each of which divides by ten, so it
-- never runs out. The loop of `observe` runs over the polls that the world gives, and is shown to end
-- where the clock reaches the deadline in one of them. All other recursion is structural.
--
-- Not modelled: the decoding of YAML, HTTP, the encoding and sending of traps, rendering, files and
-- process set-up, which are input and output; the queries of `readSnapshot`; the reads of the journal
-- (`ListRuns`, `GetRun`, `ListResources`), which change nothing; and the ledgers of the other input paths
-- (existing feeds and installed packs).
pub mod Base
pub mod Run
pub mod Snmp
pub mod Scenario
pub mod Store
pub mod Runner
mod Examples
pub mod Envfile
pub mod Rotation
pub mod Control
