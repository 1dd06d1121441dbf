-- ===== src/Corosync/Links.antt =====
-- The class `LinkManager` of crmsh/corosync.py.
pub mod State
pub mod Reading
pub mod Addresses
pub mod Settings
pub mod Editing
pub mod Members
pub mod Claims
pub mod Found
pub mod LinkList
pub mod KnownAddresses
pub mod Unique
pub mod WrittenNodes
pub mod Upserted
pub mod Managed
pub mod Removed
pub mod Requests
