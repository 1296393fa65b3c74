-- ===== src/Broker/Tests.antt =====
-- A small library that stands in for json, hashlib, hmac and base64, one store, and the theorems
-- at it. Digests are constant, and `loads` knows the dicts of the scenario.
pub mod Scenario
pub mod Witnesses
pub mod ServiceStore
