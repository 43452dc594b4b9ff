-- ===== src/Meter.antt =====
-- internal/meter: price schedules (`Schedule`) and the charge for a request (`Pricing`).
pub mod Schedule
pub mod Pricing
