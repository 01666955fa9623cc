-- ===== src/Coordinator.antt =====
-- The update coordinators (custom_components/sophos_firewall/coordinator.py). Times are in
-- milliseconds, intervals in seconds.
pub mod Scheduler
pub mod State
pub mod Fetch
pub mod Cycle
pub mod Xml
pub mod Snmp
