-- ===== src/Broker/Ipc.antt =====
-- The local IPC boundary of the broker (src/lumi_eggcracker/brokered/linux_ipc.py): messages, the
-- service's handler and the workload's client.
pub mod Validators
pub mod Messages
pub mod Handler
pub mod Chains
pub mod Allowed
pub mod Receipts
pub mod Reports
pub mod Sent
pub mod Accepted
pub mod Answers
pub mod Exchange
mod Tests
