-- ===== src/Worker/Completes.antt =====
-- Where no call of a service fails, an attempt returns.
pub mod Finishes
pub mod Steps
pub mod Gated
