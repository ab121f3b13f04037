-- ===== src/Lib.antt =====
-- The API server of the Cosmos3 Nano web UI: a FastAPI program that serves one GPU. A client
-- submits a job; the job store records it under a fresh id (and under its idempotency key, if it
-- has one), and the runner drains a queue one job at a time. For each job the runner acquires the
-- single slot of the residency orchestrator, which evicts the resident plane before it loads
-- another, runs the work in a thread, and drives the job to a terminal status. A cancel may arrive
-- at any moment.
--
-- Common holds what the parts share: Common/Tests the Boolean tests, Common/Lists and Common/Int
-- lists and integers over the native numbers, Common/Slices what take and drop do to each other,
-- Common/Fallible the calls that return or raise, Common/Dict Python's dict, Common/Value decoded
-- JSON, Common/Float the doubles as exact multiples of 2^-1074 with the infinities and NaN
-- (comparisons only).
--
-- * Orchestrator/Planes is the Plane and ProbeKind of api/orchestrator/planes.py;
--   Orchestrator/Residency is api/orchestrator/residency.py with the transition label of
--   api/app/observability/instruments.py.
-- * Orchestrator/Manager is api/orchestrator/manager.py. Each method runs under the manager's lock
--   and is one function on the record Orchestrator. A worker object is named by the identity it
--   was built for; what the workers and the memory answer is an argument (Answers), whether an
--   eviction takes its worker down included, and every call of a worker is recorded in a trace. A
--   start that raises is taken to leave no worker up. Manager/Residents replays a trace to the
--   workers that are up; Manager/Sessions is any sequence of calls.
-- * Orchestrator/Workers holds the waits of api/orchestrator/worker.py and container.py, over what
--   the clock, the process and the probe answer in each round.
-- * Jobs/Model is api/jobs/model.py with JobStatus and ErrorModel of api/app/schemas.py;
--   Jobs/Model/Lifecycle is the diagram of its transitions.
-- * Jobs/Events is api/jobs/events.py; Jobs/Store is api/jobs/store.py, with the fingerprint, the
--   fresh id and the time as arguments. Store/Invariant says what holds between two calls,
--   Store/Use what the program does to a store, Store/Idempotency what a key and a terminal job
--   keep.
-- * Jobs/Runner is api/jobs/runner.py with submit_and_enqueue of api/app/jobs_router.py past the
--   validation: the handlers that run between two awaits, on one record World. Runner/Steps is the
--   step relation over them, in any interleaving; Runner/Status says what a handler does to the
--   statuses, Runner/Fits and Runner/Serial the invariant, Runner/Keeps, Runner/Calls and
--   Runner/Cancels its preservation, Runner/Reachable and Runner/Durable what follows;
--   Runner/Board is a board of statuses and of cancels asked for, with one rule for each kind of
--   event: the specification that each step of the runner keeps to.
--
-- * Jobs/Framing is the wire framing of api/jobs/gen_client.py. The reader is any Stream that
--   keeps recv's contract, the JSON encoder an argument; Framing/Wire reads back what was written.
-- * Preprocessing is api/preprocessing: Limits is limits.py, Media the validators of media.py and
--   Header its magic bytes and header parsers, Action action_schema.py. Media/Accept and
--   Action/Registry say exactly what is accepted, Header/Jpeg that the JPEG scan ends inside the
--   data.
-- * Preprocessing/Paths is paths.py, its URL pattern and NUL test included, over any realpath.
-- * App/Submission is validate_submission of api/app/jobs_router.py with all it calls, over an Env
--   of what it takes of Python's libraries; App/Numbers its integer parameters; App/Errors is
--   api/app/errors.py. App/Label is api/app/routes/checkpoint.py with the endpoints.py of
--   api/engines/vllm_omni. App/Stream is the generator of stream_events in api/app/jobs_router.py,
--   over what each of its rounds finds in the store; App/Reasoning is api/app/routes/reasoning.py,
--   over the tokenizer, the containment of paths and the items of the upstream's queue.
-- * Engines/ContextCap, Engines/CoResidency and Engines/Preflight are
--   api/engines/vllm/context_cap.py, coresidency.py and reasoner_preflight.py, the last over what
--   the reads of the files bring.
-- * Engines/Omni is the client of api/engines/vllm_omni/client.py: what a round of the polling
--   meets (the deadline, the answer, the elapsed share of the expected time) is an argument, the
--   reported fractions are computed. Engines/Omni/Work is work.py on top of it, with the
--   transport's and the file system's answers in a record Outside; A write of an artifact may fail
--   before its file is opened, or after, and then leaves a torn file. Work/Written says what a job
--   asks for and leaves.
-- * Checkpoint is tools/checkpoint_prep. Checkpoint/Bytes is safetensors_io.py and the byte
--   streams of rewrite.py, over any JSON writer and reader; Checkpoint/Mutation is mutation.py
--   (Mutation/Order its sort, Mutation/Tiling and Mutation/Laid its layout, Mutation/Planned its
--   refusals) and Checkpoint/Sidecars its sidecars; Checkpoint/Rewrite is rewrite.py up to the
--   commit, of which Rewrite/Payload follows the bytes, Rewrite/Intact the verification, and
--   Rewrite/Committed joins them; Checkpoint/Probe is integrity_probe.py; Checkpoint/Copy the plan
--   of copy_shared.py.
--
-- Fuel stands in six places. The JPEG scan moves on by a byte or more in each round, so one round
-- more than the data has bytes is enough; an exact read takes a byte or more in each round, so as
-- many rounds as bytes wanted are enough. A worker's wait ends in the round in which the deadline
-- has passed, if not before, so fuel for that round is enough. A stream of a tensor's bytes takes
-- a byte or more in each round. The polling of a job ends in the round in which the deadline has
-- passed, if not before. A stream of events ends in the round in which the job is over. All six
-- are proved. All else is structural. The bound of an event log is the source's 1024. Messages for
-- the reader of an error are left out; codes and numbers are kept.
--
-- Not modelled: the start and stop of the drain task, an exception of evict_all itself, the HTTP
-- layer, the persistence of inline media, the start and the eviction of a worker, the request
-- forms and the transport of the generation server, the commit and the restore of a changed
-- checkpoint, the copying of files, the metrics, the web UI and the deployment patches.
pub mod App
pub mod Checkpoint
pub mod Common
pub mod Engines
pub mod Jobs
pub mod Orchestrator
pub mod Preprocessing
