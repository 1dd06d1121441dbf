-- ===== src/Handles.antt =====
-- crmsh/handles.py: the templates of the scripts.
pub mod Values
pub mod Template
pub mod Rounds
pub mod Rendered
