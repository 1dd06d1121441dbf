-- ===== src/Report.antt =====
-- crmsh/report/utils.py: the part of a log between two times.
pub mod Search
pub mod Ends
pub mod Found
