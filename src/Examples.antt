-- ===== src/Examples.antt =====
-- Concrete runs of the components.
mod ConfFormat
mod IdMgmt
mod Lock
mod Context
mod Sbd
mod Units
mod Report
mod Corosync
mod Handles
mod Links
mod Cib
mod Status
mod Cli
