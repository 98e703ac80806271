-- ===== src/Lib.antt =====
-- Dynamic Neural Computation: the core of the package in src/dnc, modelled and verified.
--
-- The parts and how they meet:
-- - State: src/dnc/state and the value types of src/dnc/runtime/types.py. State/WorkingMemory has the
--   buffers of module instances, State/History the log, State/Checkpoints the bounded record of
--   checkpoints, State/Execution the state as a whole with the checks of
--   src/dnc/invariants/runtime_invariants.py.
-- - Scheduler: src/dnc/scheduler/scheduler.py. The root file has set_graph, _has_cycle and
--   get_dispatch_order; Scheduler/Dispatch has get_runnable, dispatch and step on a working memory,
--   with what get_runnable lists in Laws and what dispatch does in Ready.
--   Building and Loading are about set_graph, Degrees, Kahn, Rounds and Order about Kahn's algorithm,
--   Admission about which graphs pass, Cache about the stored order.
-- - Ir: src/dnc/ir. Ir/Enums, Ir/Contracts, Ir/Identity and Ir/Graph are its data with their
--   operations; Ir/Validator is validator.py, with the rules for one edge in Ir/Validator/EdgeRules
--   and the check of an execution context in Ir/Validator/Context.
-- - Mutation: src/dnc/mutation and src/dnc/ir/operations.py, the operations on a structural graph and
--   their rollback.
-- - Transaction: src/dnc/transaction, which runs operations of Mutation on a copy, validates the copy
--   with Ir/Validator and commits it.
-- - Provenance: src/dnc/observability/provenance.py, the log of events and its hash chain.
-- - Persistence: src/dnc/persistence. Persistence/WorkQueue is workers.py, with its records in
--   Records, its invariant in Validity, fencing tokens in Fencing, results in Results, reconcile in
--   Expiry and what its calls keep in Keeping;
--   Persistence/Repository is repository.py, with the event lists in Streams and Growth, version
--   conflicts in Conflicts and the inbox in Delivery. Calls has for each the calls in any order,
--   restore among them.
-- - Memory: src/dnc/memory. Memory/Stores is stores.py, with the fate of a record in Holds, retrieve
--   in Queries and Retrieval and invalidate_dependencies in Sweeps and Invalidation; Memory/Skills is skills.py, with its
--   records in Records, the active versions in Active and Calls and rollback in Rollback.
-- - Distributed: src/dnc/distributed/protocol.py, with its messages in Messages, the window
--   of the receiver in Receiver, deliveries in Handoffs and what they leave in Outcomes.
-- - Enterprise: src/dnc/enterprise. Enterprise/Audit and Enterprise/Governance are operations.py,
--   Enterprise/Security is security.py.
-- Prelude holds what they share: Boolean tests, lists, Python dicts as association lists, integers,
-- and outcomes with exceptions. Files named Tests apply the theorems at concrete values.
--
-- A method that changes its object returns the new state, also where it raises. Identifiers, digests
-- and other strings that are only compared are numbers. The loops of Kahn's algorithm run on fuel,
-- one unit for each node; each round takes a node from the queue that was in no queue before, so this
-- is enough, and on valid schedulers the exception of empty fuel is never raised. The causal query
-- of the log has one unit for each event and one more, which is enough where every cause was in the
-- log before its effect, since then no event comes twice.
--
-- Parameters stand for what is not in the repository or not determined by it: copy.deepcopy, SHA-256
-- of the text of an event, fresh identifiers and the time, the order by memory address, the module
-- that runs, the float budget. Locks are not modelled, calls follow one another; a transaction has
-- no provenance log attached. Messages of errors are named and their text is left out. Not modelled
-- are the other packages of src/dnc: projection, the rest of memory and enterprise,
-- capabilities, assurance, planner, runtime and replay, and those that are input and output, float
-- statistics or glue (providers, plugins, neural, learning, evaluation, cognition, the command line).
pub mod Prelude
pub mod State
pub mod Scheduler
pub mod Ir
pub mod Mutation
pub mod Provenance
pub mod Transaction
pub mod Persistence
pub mod Memory
pub mod Distributed
pub mod Enterprise
