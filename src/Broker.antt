-- ===== src/Broker.antt =====
-- The brokered operator (src/lumi_eggcracker/brokered/operator.py): requests and capabilities,
-- the replayed state, the journal, and the operations on it.
pub mod Library
pub mod Claims
pub mod Requests
pub mod State
pub mod Replay
pub mod Journal
pub mod Calls
pub mod Operator
pub mod Service
pub mod Spec
pub mod Ipc
mod Tests
