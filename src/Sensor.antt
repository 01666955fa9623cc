-- ===== src/Sensor.antt =====
-- The sensors (custom_components/sophos_firewall/sensor.py): what each shows of the coordinators' data.
pub mod States
pub mod Summary
pub mod Uptime
pub mod Readings
pub mod Interfaces
pub mod Platform
