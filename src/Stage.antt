-- ===== src/Stage.antt =====
-- src/runtime/Stage.h and .cpp.
pub mod State
pub mod Sequences
pub mod Outputs
pub mod Setup
pub mod Contexts
pub mod History
pub mod Inputs
pub mod Update
pub mod Apply
pub mod Validate
pub mod Released
pub mod Invariant
pub mod Requests
pub mod Distinct
pub mod Commands
pub mod OnRelease
pub mod CancelOutputs
pub mod HistoryStart
pub mod ActiveContexts
pub mod PassThrough
pub mod Frame
pub mod ExitSequence
mod Tests
