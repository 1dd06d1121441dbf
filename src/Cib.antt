-- ===== src/Cib.antt =====
-- The objects of the configuration: crmsh/cibconfig.py and crmsh/xmlutil.py.
pub mod Constraint
pub mod Dangling
pub mod Renamed
pub mod Unique
pub mod Factory
pub mod Objects
pub mod Loop
pub mod Kept
pub mod Tags
pub mod Relink
pub mod Clear
pub mod Removal
pub mod Rename
pub mod SetId
pub mod NewId
