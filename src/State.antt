-- ===== src/State.antt =====
-- The runtime's state: src/dnc/state (working memory, history log, checkpoints, execution state)
-- with the buffers of src/dnc/runtime/types.py and the checks of src/dnc/invariants.
pub mod WorkingMemory
pub mod History
pub mod Checkpoints
pub mod Execution
mod Tests
