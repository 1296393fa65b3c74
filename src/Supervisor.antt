-- ===== src/Supervisor.antt =====
-- The supervisor's correlation of evidence (src/lumi_eggcracker/supervisor.py, lines 240-256 and
-- 835-949).
pub mod Candidates
pub mod Sets
pub mod Forest
pub mod Chains
pub mod Joining
pub mod Groups
pub mod Correlation
pub mod Accounts
mod Tests
