-- ===== src/Lib.antt =====
-- A model of crmsh, the command line interface of the Pacemaker cluster manager, and what its
-- parts guarantee. Strings are lists of code points.
--
-- - ConfFormat: crmsh/corosync_config_format.py. `Tokenizer` is `Parser._tokenize`; `Parser` is the
--   loop of `Parser._parse` over the lines of a file, with the methods that a subclass overrides as a
--   record; `Dom` is the tree of dicts, lists and strings; `Builder` is `DomParser`, whose stack of
--   references is kept as a path of section names; `Serializer` is `DomSerializer`. The modules below
--   `RoundTrip` follow a written tree through the parser.
--   `Query` is the class `DomQuery`: `Paths` has `get`, `get_all` and the queue of
--   `enumerate_all_paths`, `Removal` has `remove`.
-- - Corosync: crmsh/corosync.py. `Config` is `ConfParser` on that tree. `Links` is `LinkManager`:
--   `State` has the records for the nodes, the interfaces and the links, `Reading` is `links`,
--   `Addresses`, `Settings` and `Editing` are the operations; Python's `int` and `ipaddress` are
--   parameters. `Members` to `Requests` are about the addresses under these operations.
-- - Xml, IdMgmt: crmsh/idmgmt.py over the part of an lxml element that it uses, and the traversals
--   of crmsh/xmlutil.py. The globals of the module are the record `Store`.
-- - Lock: crmsh/lock.py. `Claim` has the methods of `Lock` and `RemoteLock`, with the answers of the
--   commands and of the clock given for each round; `Wait` and `Patience` are about the waiting loop,
--   `Remote` about the brackets of a claim on another node, `Exclusion` about several objects that contend for the directory, as a step relation.
-- - Context: crmsh/ui_context.py. `Cursor` is the state of `Context` and the methods on its stack of
--   levels, `Run` is the method `run` from the tokens on. `Trail` says by itself which levels a line
--   enters and how it ends, and `Stack` and `Line` follow the stack through a line. Levels and commands
--   (the rest of the interpreter) are the record `Ui`.
-- - Sbd: crmsh/sbd.py. `Timeout` has the formulas of `SBDTimeout`, over records of what the profiles,
--   the configuration and corosync say; `Checker` is `SBDConfigChecker.check_and_fix`, the sequence of
--   checks and fixes, which are any functions of a state there, and `Checks` has the single checks of
--   timeouts, with the fixes that set a property. `Bounds`, `Fixed`, `ReadOnly` and `Mended` are about
--   these.
-- - Units: `crm_msec` and the words for Booleans of crmsh/utils.py.
-- - Report: `findln_by_timestamp`, `filter_lines` and `print_logseg` of crmsh/report/utils.py, over the
--   lines of a log; the time of a line is a parameter.
-- - Handles: crmsh/handles.py. `Values` has the objects, `_resolve`, `_push` and `_textify`, `Template`
--   the loop of `_parse`; `Rounds` and `Rendered` are about this loop.
-- - Cli: the resource sets of constraints. `Element` has the words, `Format` is `rsc_set_constraint` of
--   crmsh/cliformat.py, `Parser` is `ResourceSet` and `Choice` is `match_resource_set` of
--   crmsh/parse.py; what the schema allows is a parameter. `Words` to `Written` follow a written
--   constraint through the parser.
-- - Cib: `Constraint` has what crmsh/xmlutil.py does with the references of a constraint to resources;
--   the way of a constraint through its text (`repr_cli` and `cli2node`) is a parameter. `Dangling`, `Renamed`
--   and `Unique` are about these. `Factory` has the objects of `CibFactory` of crmsh/cibconfig.py, known by
--   their ids, and `_remove_obj`, which calls itself for the tags and constraints that are left with
--   nothing. `Objects` to `Removal` are about it. `Rename` is its method `rename`, with the ids
--   in use as a `Store` of `IdMgmt`, and `NewId` about that.
-- - Status: crmsh/cibstatus.py. `Section` is the status section with `get_status_ops` and `split_op`,
--   `Editing` the class `CibStatus` with its edits; what is read, and whether crm_simulate succeeds, is
--   given for each edit. `Listed` is about what `list_changes` prints.
-- - Examples: concrete runs.
--
-- Recursion is on the structure of the input or counts the rounds that the source has (`range(99)`
-- in `_gen_free_id`), except in six places. The waiting loop of `Lock` takes a fuel, which bounds its
-- rounds; `Wait` shows how much is enough. The search of `Report` takes as many rounds as the log has
-- lines, and some more; `Ends` shows that they are enough. The queue of `Query` is given a fuel above
-- the size of the tree (`Leaves`), and the templates of `Handles` the length of the template
-- (`Rounds`). The decimal printer of `Prelude` takes a fuel above the number that it prints, and
-- divides by ten in each round. `_remove_obj` takes a fuel, for which the number of objects is enough
-- (`Removal`); in `_delete_1` it counts the parents above an object.
--
-- Not modelled: messages to the log and the terminal, files, processes and the network. `\d` is read
-- on ASCII digits.
mod Prelude
pub mod ConfFormat
pub mod Xml
pub mod IdMgmt
pub mod Lock
pub mod Context
pub mod Units
pub mod Sbd
pub mod Handles
pub mod Corosync
pub mod Report
pub mod Cli
pub mod Cib
pub mod Status
mod Examples
