-- ===== src/Context.antt =====
-- crmsh/ui_context.py: the cursor in the hierarchy of levels, and the execution of a command line.
pub mod Cursor
pub mod Run
pub mod Trail
pub mod Stack
pub mod Line
