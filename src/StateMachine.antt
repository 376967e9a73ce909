-- ===== src/StateMachine.antt =====
-- vehicle/src/bullwinkle/all/StateMachine.cc and StateMachine.h: the state machine that the control
-- configuration drives, in its synchronous and asynchronous flavours.
pub mod Types
pub mod Commands
pub mod Transitions
pub mod Dispatch
pub mod Invariant
pub mod Handling
pub mod Feeding
pub mod Settling
pub mod SyncDispatch
pub mod Sync
pub mod Async
pub mod Acceptance
pub mod Graph
pub mod GraphWalk
pub mod GraphSearch
pub mod GraphCheck
pub mod Forcing
pub mod Lookup
pub mod Initial
pub mod Validation
mod Tests
