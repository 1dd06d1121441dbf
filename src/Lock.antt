-- ===== src/Lock.antt =====
-- crmsh/lock.py: a lock that is a directory on a node.
pub mod Claim
pub mod Wait
pub mod Patience
pub mod Exclusion
pub mod Remote
