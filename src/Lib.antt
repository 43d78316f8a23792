-- ===== src/Lib.antt =====
-- MiniSandbox: a control plane that runs commands in containers on one host. `sandboxd` keeps a
-- record of every sandbox in a store and reconciles it with the containers that there are;
-- `runnerd` runs inside each container and executes commands.
--
-- The reconciler (internal/reconcile):
--   Reconcile/Queue      queue.go. `WakeQueue`; the locked sections of `Wake`, `Next`, `Done` and
--                        `Close` are functions, and Queue/System interleaves them, the sends and
--                        the receives of any number of goroutines as steps; Queue/Fifo calls
--                        `Wake` and `Next` in a row.
--   Reconcile/KeyedLock  keyed_lock.go. The map of entries over a heap, since a goroutine keeps its
--                        entry while the map forgets it; KeyedLock/System has the goroutines as a
--                        list, each in one phase of `LockContext` or of its release.
--   Reconcile/Retry      retry_classifier.go, then retry_policy.go: an error gets a class and the
--                        class a decision. An error is the answers to the questions that the
--                        classifier asks of it.
--   Reconcile/Backoff    backoff.go; the random source is a parameter.
--   Reconcile/Reconciler reconciler.go and running_recovery.go: `Reconcile` and `FailEgress` as chains
--                        of calls that change a world: the table of the store, a trace of what was done
--                        and the number of calls. An `Environment` gives the answers of the runtime,
--                        the probes and the clock at each place, which writes fail, and what other
--                        writers do before each call of the store. Reconciler/Evidence has what the
--                        trace must show, Running/Outcome where a run without an error ends.
--   Reconcile/Sweeper    candidate_sweeper.go: a round over the pages of the store's listing.
--   Reconcile/Expiration ttl_due_validator.go, ttl_expiration.go: a lease timer that fires.
--   Reconcile/Recovery   recovery_plan.go: what the plan reads, and in Recovery/Plan `PlanRecovery`,
--                        branch by branch.
-- The application (internal/application):
--   Application/Renew    renew.go and renew_validator.go. The store is an interface, `LeaseStore` for
--                        its operations and `IsLeaseStore` for what a renewal relies on; what other
--                        writers do between two calls is one of the operations.
-- The store (internal/store/sqlite/store.go):
--   Store/Lifecycle      `Get` and the updates by compare-and-swap, on an association list of the
--                        records; Lifecycle/Renewal fills the interface of Application/Renew.
--   Store/Tokens, Store/Creates   the creates, with and without an idempotency key, and the import.
--   Store/Listing        `ListReconcileCandidates`, on the rows in the order of their IDs.
--   Store/Calls          lists of such calls, each carried out or rolled back.
-- The runtime (internal/runtime):
--   Runtime              errors.go: `ClassifyError`.
-- The domain (internal/domain):
--   Domain/States, Domain/Reasons   sandbox_state.go and sandbox_reason.go.
--   Domain/Sandboxes     sandbox.go and sandbox_spec.go: the record of a sandbox.
-- The wire protocol (pkg/protocol):
--   Protocol/Events      events.go: `ExecutionEvent` and `Validate`.
-- The runner (internal/runner), where one execution has one of each but the manager:
--   Runner/Execution     execution_model.go: the states and `Transition`.
--   Runner/Sequencer     event_sequencer.go: numbers and time stamps for the events. What `Publish`
--                        sees of its two selects is an argument (`Delivery`).
--   Runner/EventStore    event_store.go: the events and the budget of the output. It calls the
--                        sequencer.
--   Runner/Arbiter       terminal_arbiter.go: the candidates for the end of an execution. It calls
--                        `Transition` and the event store.
--   Runner/Manager       manager.go: the registry and its slots; Manager/Cancellation has the
--                        cancellation, the shutdown and a single eviction of
--                        completed_execution_gc.go. Manager/Traces runs any list of calls, and
--                        Manager/Finality follows one execution that has been reported.
-- Prelude has what they share; Examples has every theorem at concrete inputs.
--
-- A Go int64, a time and a duration are integers (Prelude/Int); a count that the source keeps from
-- becoming negative is a natural number. A uint64 of the sequencer wraps; the theorems on it assume
-- numbers below the last one. The loop of the backoff has the bound of the source, 63 rounds, and
-- the loops of `Renew` and of `ExpireEntry` their three attempts, a round of the sweeper its maximum
-- of pages. Nothing else needs fuel: loops over queues, events and calls are recursions over lists.
--
-- SQL compares times as texts; the comparison is a parameter of the store. A revision is a natural
-- number: 2 ^ 63 updates of one record are out of reach.
--
-- Not modelled: the clock, the random source and the contexts, which are arguments; SQLite, the JSON
-- decoder and the hash of a specification, which are parameters; logging and metrics; the container
-- runtime and the HTTP layers, which are input and output; the migrations of the store; nil
-- receivers; and how long a call waits.
pub mod Prelude
pub mod Domain
pub mod Application
pub mod Store
pub mod Reconcile
pub mod Protocol
pub mod Runner
pub mod Examples
pub mod Runtime
