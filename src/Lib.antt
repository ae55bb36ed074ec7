-- ===== src/Lib.antt =====
-- PortOS: the resource model, the verbs, and the admission, running and approval of plans.
--
-- PortOS runs untrusted plugins and effect plans under a small kernel. What the kernel gives out is a
-- holding in a ledger: a fragment of a resource algebra, taken from a pool of a declared capacity. A
-- plan is admitted before it runs: its labels keep confidential data from external effects, and its
-- budget, shown for consent, bounds what it may do. Protocols bound the order of verbs.
--
-- The files and the code that they are about:
--   Base         lists, maps, sets of texts and Boolean tests that the parts share
--   Errors       LedgerError and results (crates/portos-rm/src/ledger.rs)
--   Ra           the trait Ra, its five instances, the lift by a unit and the law checkers
--                (crates/portos-rm/src/ra.rs); one child for each instance
--   Auth         compose, auth_valid, can_mint (crates/portos-rm/src/auth.rs)
--   Identity     ids, handles and keys (crates/portos-rm/src/identity.rs)
--   Time         timestamps and leases (crates/portos-rm/src/time.rs)
--   Cleanup      cleanup targets, tasks and holding states (crates/portos-rm/src/cleanup.rs)
--   Frag         dynamic fragments and their typed view (crates/portos-rm/src/ledger.rs, registry.rs)
--   Registry     typed capacities, claims, classes and pools (crates/portos-rm/src/registry.rs)
--   Ledger       the aggregate (crates/portos-rm/src/ledger.rs and ledger/cleanup.rs): Pools, Holdings,
--                Retirement and Requests hold its operations; Steps names each call that succeeds,
--                Changes gives all of them one shape, and Order, Capacity, Kept and Roots keep the
--                invariants that Invariants states of every ledger that is reached; Attempts,
--                Fencing and Outcomes follow one attempt at a cleanup
--   Coeffect     the plan shapes, budgets by class, the demand of a plan and its admission
--                (crates/portos-rm/src/coeffect.rs)
--   Protocol     protocols on sequences and on plans (crates/portos-rm/src/protocol.rs)
--   Verbs        the characters of verbs, the check of a class declaration, the policy of its handler
--                and the table of classes (crates/portos-rm/src/verbs.rs)
--   Proto        labels, capabilities and plans (crates/portos-proto/src/label.rs, cap.rs, plan.rs);
--                Wire, Frame and Chunk: byte streams, frames, chunk streams and the chunk reader
--                (crates/portos-proto/src/frame.rs, chunk.rs)
--   Kernel       Plancheck: the admission of plans (crates/portos-kernel/src/plancheck.rs);
--                Plans: the interpreter of plans (crates/portos-kernel/src/plans/interpreter.rs with
--                its eval.rs, control.rs, runtime.rs, types.rs, store.rs). Eval evaluates terms,
--                Effects performs, withholds and parks, Interpreter runs statements and the thread;
--                Trace describes runs as a relation, from which Guarantees and Settlement
--                follow; Attempts and Told describe what one effect statement tells of.
--                Consents: the check of a consent (plans/admission.rs, consent.rs);
--                Approval: the approval of what a run withheld (plans/approval.rs)
--   Examples     tests, and the concrete inputs at which the theorems are applied
--
-- How the parts interact: the admission derives a label, a budget and a count of steps for a plan; the
-- interpreter runs an admitted plan against a host, and withholds what the host says needs its own
-- consent, which the host takes from the character of the verb in its checked class. An approval with
-- a fresh consent releases what was withheld. The ledger is independent of plans: what it gives out is
-- what the authority over its pools admits.
--
-- How state is modelled: an operation of the source that takes `&mut self` gives the new state here, or
-- an error. The source changes its state only after the last check, so an error leaves the state as
-- it was. The interpreter passes a run along, and an outcome says whether it is done, stopped or
-- parked. An approval can fail halfway, so it gives the new state with its error. A map is an
-- association list in the order of insertion, and a set of texts is a list up to membership. Where the
-- code walks a map in the order of its keys, the walk here may meet another error first, and what it
-- collects may stand in another order.
--
-- Numbers are natural numbers with their bounds written out: a count is below 2^64 or the invalid
-- element, ids and times fit an i64, the additions of the admission wrap or saturate at u64, and the
-- length of a frame or a chunk is cast to a u32.
--
-- Fuel: request_retirement follows children in a loop, here with a visit for each holding and one
-- more: the id of a child is above the id of its parent, so no row is visited twice. An effect that
-- the host holds back is tried again after each signal, so the list of signals that the run will get
-- is its fuel; when it is used up the run is parked. Reading chunks to the end has the length of the
-- stream as its fuel, since each chunk takes at least its four bytes of length. All other loops are
-- structural.
--
-- Parameters: the exact rationals of num-rational, as the record Rationals with the laws of an ordered
-- field that fractions use; the type of JSON values of serde_json with the reading and printing of
-- them, and the regular expressions of guards; the host of a run (the trait PlanRuntime, the minting
-- of capabilities, the transfer of holdings and the writes to the database); the
-- keyed hash of a consent.
--
-- Not modelled: persistence in SQLite, processes and sockets, the plugin host; of the interpreter the
-- records of the audit log, which nothing reads back, and errors of reads from the database; the
-- service that submits, starts, resumes and recovers plans, and two of its calls at the same time; the
-- calls of the ledger that only read (snapshots, closures, reconcile), and settle_and_zero_pool. The
-- static labels of the admission are modelled as they are derived; that they bound the labels at run
-- time is not shown.
pub mod Base
pub mod Errors
pub mod Ra
pub mod Auth
pub mod Identity
pub mod Time
pub mod Cleanup
pub mod Frag
pub mod Registry
pub mod Ledger
pub mod Coeffect
pub mod Protocol
pub mod Verbs
pub mod Proto
pub mod Kernel
pub mod Examples
