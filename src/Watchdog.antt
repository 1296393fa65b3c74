-- ===== src/Watchdog.antt =====
-- The watchdog (src/lumi_eggcracker/watchdog.py): killing one cgroup, failing closed on all of them,
-- and the loop that watches the supervisor's heartbeat.
pub mod Containment
pub mod Heartbeat
pub mod Silence
mod Tests
