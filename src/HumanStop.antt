-- ===== src/HumanStop.antt =====
-- The human-stop controller of experiments/human_override/model.py: bounded JSON, the durable
-- latch, and the trusted observer.
pub mod Limits
pub mod State
pub mod Storage
pub mod World
pub mod Controller
pub mod Steps
pub mod Observer
pub mod Latch
pub mod Launch
pub mod Reload
mod Tests
