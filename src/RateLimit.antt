-- ===== src/RateLimit.antt =====
-- relay/delivery/rate_limit.py: the two limits on a tenant. `Bucket` is the token bucket and `Slots`
-- the cap on deliveries in flight.
pub mod Bucket
pub mod Slots
mod Tests
