-- ===== src/Lib.antt =====
-- The core of the Spark broker: its durable store, the coordinator that admits jobs to the GPU, the
-- scheduler's execution of a job, the engine that selects a model, and the training controller.
--
-- Parts and files
--   Prelude     shared names: tests on natural numbers, lists and rows, sorting, the results of
--               functions that raise (Results), methods that change an object and may raise (Exec),
--               and what those give on return and on an exception (Outcomes).
--   Text, Json  the regular expressions of the sources, and the values that json.loads returns.
--   Clock       utc_now of spark_broker/store.py: times, and the order SQL gives to their texts;
--               Texts has the texts and proves their order. The text of a date is an argument.
--   Contract    spark_broker/contract.py. Types holds the request that validate_job_request returns,
--               Validate and Whole the function, Route proves. The size of canonical JSON and the
--               parser of a deadline are arguments.
--   Store       spark_broker/store.py. Tables holds the rows; Queue, Jobs, Cancel, Leases and
--               Artifacts hold one function for each method of Store, in snake case as in the source.
--               The other modules of Store prove: Invariant, JobSteps, LeaseSteps, OtherSteps and Reach
--               the well-formedness of the tables over any interleaving, Claims and Pages the queue,
--               Cancellation, Deferral, Idempotency, Restart, Terminal and Final the life of a job.
--   Resources   spark_broker/resources.py. Types holds its data classes and the snapshot; Admission
--               the pure checks (_validate_snapshot, _validate_compatibility, _controllers_for,
--               _released_profile_is_verified); Probe and Sample the reading of a probe's answer in
--               _combined_snapshot_serialized; Coordinator and Control the object and its calls to the
--               outside (set_mode, _combined_snapshot, the verification of controllers); Lifecycle and
--               Acquire the methods acquire, release, verify_activation and what they call; Window
--               configure_execution_control and preemption_candidate; Startup _reconcile_after_lock,
--               _advance_host_epoch, _recover_recorded_throttles and takeover_mode.
--               Admits, Sole, Stable, Kept, Sound, Exclusive, Grants, Holders, Pending and Restarted
--               prove.
--   Routing     spark_broker/routing.py. Types holds its data classes, Context
--               normalize_routing_snapshot, Decide the method decide and _validate_route_set;
--               Preference says what each preference asks for, Choice proves. Python's float() of an
--               integer is an argument.
--   Training    spark_broker/training_controller.py. Types holds the policy, the requests and the
--               authority, Config the reading of the policy, Requests _validate_request, Receipt
--               _load_receipt and its digest, Mode the machine, the writes, the checkpoint and _apply,
--               Control the fence, the completion, the recovery, set_mode and takeover. Kept,
--               Recovered, Since, Settled, Seen, Verified and Wire prove.
--   Scheduler   spark_broker/scheduler.py. Types holds executors, the state of the thread and
--               ExecutionPlan.public, Execute the method _execute with its except and finally clauses,
--               Scan the scan of the queue in _control_loop; Holding, Safe and Scanned prove.
--   Examples    tests at fixed inputs, and each theorem applied at one.
--
-- How the parts interact
--   The threads of the broker share one Store. Each of its methods is one immediate transaction of
--   SQLite, so a method is a function from the tables to the tables and an answer, and an
--   interleaving of threads is a sequence of methods (Store.Reach). The coordinator calls the store,
--   the host's files, a probe and controllers over HTTP, the clock and uuid4. All but the store are the record
--   Outside, an argument of every method: its answers are not restricted, so the theorems hold for
--   every probe and every controller. A method that raises leaves the state as it was when it
--   raised, and its handlers run from there.
--
--   The scheduler's thread claims a job, acquires a lease from the coordinator, runs the job's
--   executor, releases the lease and stores the result. An executor is an argument: its body is a
--   program that moves the world, asks its control whether to stop, and calls stage.
--   The training controller is another process, which the coordinator calls over HTTP (Training.Wire).
--   Its units, its files and the hash are the record Machine. The replacement of a file is atomic: it
--   is made, or the exception comes before it or behind it. A crash is an exception that ends a call
--   at one of its calls of the machine, followed by a restart, which recovers.
--
-- Bounds and numbers
--   Times are microseconds, memory is in bytes and memory pressure in hundredths of a percent, all as
--   natural numbers; a latency is a double in units of 2⁻¹⁰⁷⁴. Python integers are unbounded, so no
--   wrap-around is written, but begin_broker_epoch raises where SQLite refuses an epoch, from 2^63 on.
--   The loops are structural recursion on lists, but for the scan of the queue, which runs on fuel, one
--   unit for each page of a hundred jobs: a hundredth of the jobs and one more is enough
--   (Scheduler.Scanned).
--
-- Not modelled
--   The text of JSON columns (a column holds its value), messages of exceptions beside their code, and
--   details beside it; of a controller's acknowledgement only the checkpoint is stored.
--   canonical_json and the SHA-256 of request_digest: the digest of a request is an argument of
--   submit. The compilation of routes, the loops of the scheduler's two threads, the executors'
--   bodies, and all that is input and output: the HTTP servers, the command line, the artifact files
--   and the resource probe. An authority of the training controller whose version or phase is none that
--   the controller writes is one value, foreign, which the recovery refuses.
pub mod Prelude
pub mod Text
pub mod Json
pub mod Clock
pub mod Contract
pub mod Resources
pub mod Routing
pub mod Store
pub mod Training
pub mod Scheduler
mod Examples
