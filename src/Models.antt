-- ===== src/Models.antt =====
-- The typed data that the clients hand to the coordinators
-- (custom_components/sophos_firewall/models.py).
pub mod Xml
pub mod Snmp
