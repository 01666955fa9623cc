-- ===== src/Client.antt =====
-- The XML client (custom_components/sophos_firewall/sophos_client.py).
pub mod Errors
pub mod Request
pub mod Answer
pub mod Action
pub mod Records
pub mod Reading
pub mod Writing
pub mod UrlGroup
pub mod HostGroup
