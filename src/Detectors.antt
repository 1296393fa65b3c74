-- ===== src/Detectors.antt =====
-- The detector catalogue (src/lumi_eggcracker/detectors.py): its loading and its matching.
pub mod Catalogue
pub mod Matching
pub mod Evidence
pub mod Strict
mod Tests
