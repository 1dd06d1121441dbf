-- ===== src/Corosync.antt =====
-- crmsh/corosync.py: the configuration of corosync.
pub mod Config
pub mod Written
pub mod Links
