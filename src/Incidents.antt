-- ===== src/Incidents.antt =====
-- The store of incidents, local lockdown records (src/lumi_eggcracker/incidents.py).
pub mod Nested
pub mod Validity
pub mod Store
pub mod Lifecycle
pub mod Parts
pub mod Loading
pub mod Sample
pub mod Linking
pub mod Creation
pub mod Suppression
pub mod Removal
pub mod Age
pub mod Compaction
mod Tests
mod Beyond
