-- ===== src/Setup.antt =====
-- Setting up and migrating a config entry (custom_components/sophos_firewall/__init__.py).
pub mod Pattern
pub mod UniqueIds
pub mod Options
pub mod Device
pub mod Entry
