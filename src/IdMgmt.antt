-- ===== src/IdMgmt.antt =====
-- crmsh/idmgmt.py: that the ids of a CIB are unique.
pub mod Store
pub mod New
pub mod Laws
pub mod Trees
pub mod Replace
pub mod Fresh
pub mod Sessions
