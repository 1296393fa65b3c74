-- ===== src/Launches.antt =====
-- Launch provenance (src/lumi_eggcracker/launches.py) and the cgroup identity that it names
-- (src/lumi_eggcracker/containment.py).
pub mod Identity
pub mod Readings
pub mod Signs
pub mod Verifying
pub mod Emptiness
pub mod Provenance
pub mod Active
pub mod Exact
mod Tests
