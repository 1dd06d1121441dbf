-- ===== src/Status.antt =====
-- The editing of the status section: crmsh/cibstatus.py.
pub mod Section
pub mod Editing
pub mod Listed
