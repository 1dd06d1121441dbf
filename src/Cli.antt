-- ===== src/Cli.antt =====
-- The constraints of the command line: crmsh/parse.py and crmsh/cliformat.py.
pub mod Sets
