-- ===== src/Services.antt =====
-- The actions of the integration (custom_components/sophos_firewall/services.py).
pub mod Arguments
pub mod Calls
