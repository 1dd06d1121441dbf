-- ===== src/Units.antt =====
-- The time values and the words for Booleans of crmsh/utils.py.
pub mod Time
pub mod RoundTrip
pub mod Booleans
