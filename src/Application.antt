-- ===== src/Application.antt =====
-- internal/application: when a profile is refreshed, and the gate of deliveries.
pub mod Schedule
pub mod Gate
pub mod Preflight
