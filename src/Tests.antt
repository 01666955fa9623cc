-- ===== src/Tests.antt =====
-- Runs of the models on concrete inputs.
mod Client
mod Answers
mod Cycles
mod Sources
mod Entities
mod Tables
mod Transport
mod Registry
mod Flow
mod Sensors
mod Actions
mod Platforms
mod Entries
mod Reports
