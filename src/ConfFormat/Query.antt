-- ===== src/ConfFormat/Query.antt =====
-- The class `DomQuery` of crmsh/corosync_config_format.py: its definitions, and what they find.
pub mod Paths
pub mod Leaves
pub mod Removal
pub mod Removed
