-- ===== src/Observing.antt =====
-- Bounded observation: `ObservationStore` (src/lumi_eggcracker/observation.py) and the window over a
-- table of descriptors (src/lumi_eggcracker/procfd.py, lines 22-53).
pub mod Store
pub mod Trimming
pub mod Expiry
pub mod Window
pub mod Coverage
mod Tests
