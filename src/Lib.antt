-- ===== src/Lib.antt =====
-- The ICIL competition orchestrator: challengers queue, a daemon runs each one's duel against the
-- king, and a signed, append-only store publishes what came of it.
--
-- Parts, and the files that model them. Paths are from the repository's root.
--
-- Ids (src/icil_orchestrator/ids.py): references to submissions, their patterns and keys. The hash of
-- canon.py is a parameter.
--
-- Queue (src/icil_orchestrator/queue.py): what each method of `Queue` does to the state under the lock.
-- Queue/File adds the file: several objects, each with the state that it loaded last, and a call is one
-- load, change and save, since the locks are held over it. So an interleaving is a list of calls. A file
-- is missing, unreadable or holds a state; its JSON form is not modelled.
--
-- Floats: the operations on floats that scores and budgets use, as an interface, with the laws of
-- monotone rounding where a theorem needs them. Floats/Whole is an instance that computes.
--
-- Records (src/icil_orchestrator/store/records.py): a published row, and a record's counts. The pairs of
-- keys `king_...` and `challenger_...` are two records of one shape.
--
-- Score (src/icil_orchestrator/duel/score.py): outcomes, rates, averages, the crown rule and the verdict.
-- `sum` is an addition from left to right, as in Python before 3.12; later versions carry a correction.
--
-- Duel/Merge (src/icil_orchestrator/duel/orchestrate.py): prompts and unit results into published rows.
-- A row that does not exist is `none`, for the code's `StopIteration`.
--
-- Duel/Prompts (src/icil_orchestrator/duel/materialize.py): one unit's prompt and, in Duel/Prompts/Loop, the
-- loop over the units with its manifest, whose last line may be cut. What the benchmark answers, file by
-- file, is a parameter.
--
-- Duel/Run (src/icil_orchestrator/duel/orchestrate.py): a duel's run directory and result; its phases
-- (Duel/Run/Phases), publishing (Duel/Run/Publish) and the whole run (Duel/Run/Whole), over a host that
-- holds the run directory, those moved aside and the track's store. A run is given what it will meet: how
-- the submissions check, what the benchmark makes, what each unit comes to and whether its time is up.
--
-- Duel/Side (src/icil_orchestrator/duel/side.py): one unit's outcome and whose doing it was; the results
-- file (Duel/Side/Journal), whose last line may be cut; and the loop over the units (Duel/Side/Run). The
-- prompt, the clock, the runtime and the benchmark are answers of a harness, one for each unit.
--
-- Duel/Orphans (src/icil_orchestrator/duel/orphans.py): the ledger of the process groups that a unit has
-- running and its reaping, over a process table. A process that is killed leaves the table at once.
--
-- Store (src/icil_orchestrator/store/writer.py): who holds the crown, and the index of one track
-- (Store/Index): numbered parts of lines, an optional cut line at the end, the head and the bytes of the
-- events. The encoding, the signature and the hash are a parameter, `Codec`, with three laws: a record
-- is read back from its encoding, a signature is verified, and it has the form of one. Store/Coded is an
-- instance that computes. Store/Crashes has the steps: an append, a kill at each place inside one, a
-- repair, any change of the head and any events. Store/Verify (src/icil_orchestrator/store/verify.py) is
-- the verifier's loop over a track's lines and its check of the head, without the schema checks and
-- without what stands inside an event file. A sequence number is a natural number here.
--
-- Daemon (src/icil_orchestrator/daemon.py): one step of a track, with the request and ids of
-- src/icil_orchestrator/duel/orchestrate.py. How the run of a duel ends, what head it leaves and what
-- other threads do to the queue meanwhile are inputs of the step. Daemon/Loop has the waits of the loop.
--
-- Units (src/icil_orchestrator/benchmarks/units.py): a duel's unit list, the benchmark being a parameter.
--
-- The daemon's queue is Queue's, its head is Store's; a side's results are what Duel/Merge merges, and
-- the rows are what Score decides on.
--
-- Wire (packages/icil-policy/src/icil_policy/wire.py): how one message is received, and in Wire/Encode how
-- it is framed. A connection is the frames that it will deliver; `json` and numpy are parameters: what is
-- written of a document and read of it, the sizes of element types, and what a value is as an array. What
-- the connection holds after an error is not said, since it has to be closed then.
--
-- Policy (packages/icil-policy/src/icil_policy/serve.py and client.py): the server's checks of a policy
-- and of an action; a session's operations (Policy/Serve) and its loop (Policy/Loop), one round for one
-- message; the client's exchange (Policy/Call) and its calls (Policy/Client). The competitor's code is a
-- record of functions, which may change the policy's state whatever they come to. A client's exchange is
-- a function of the frames that it sends, so Policy/Talk makes it of a session that hears them. The two
-- use the framing of Wire.
--
-- Manifest (packages/icil-policy/src/icil_policy/manifest.py): the checks of a competitor's manifest. The
-- YAML loader's document, where a path leads and Python's identifiers are parameters; a problem is named.
--
-- Rng (src/icil_orchestrator/rng.py): a number below a bound by rejection, a choice and a shuffle. The
-- hash's numbers are a parameter. The rejection loop is the one that runs on fuel, since nothing bounds
-- how often a hash may be refused; Rng/Range and Rng/Shuffle say which fuel is enough. Every other loop
-- is structural recursion over its list. The exceptions' texts are modelled where they are stored or sent.
--
-- Not modelled: processes, containers, Docker, Git and Hugging Face (src/icil_orchestrator/submissions,
-- the runtimes of src/icil_orchestrator/duel, src/icil_orchestrator/store/mirror.py), the command line
-- and administration, spec.json's validation, the live feed, and of packages/icil-policy connecting,
-- authenticating, the process around a session and the reading of files.
pub mod Prelude
pub mod Ids
pub mod Queue
pub mod Floats
pub mod Records
pub mod Score
pub mod Duel
pub mod Store
pub mod Daemon
pub mod Units
pub mod Rng
pub mod Wire
pub mod Policy
pub mod Manifest
