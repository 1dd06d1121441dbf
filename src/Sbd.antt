-- ===== src/Sbd.antt =====
-- crmsh/sbd.py: the timeouts of SBD and the relations among them.
pub mod Timeout
pub mod Bounds
pub mod Checker
pub mod Fixed
pub mod Checks
pub mod Mended
pub mod ReadOnly
