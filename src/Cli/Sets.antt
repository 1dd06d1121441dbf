-- ===== src/Cli/Sets.antt =====
-- Resource sets on the command line: the class `ResourceSet` of crmsh/parse.py and
-- `rsc_set_constraint` of crmsh/cliformat.py.
pub mod Element
pub mod Format
pub mod Parser
pub mod Choice
pub mod Words
pub mod Steps
pub mod RoundTrip
pub mod Written
