-- ===== src/Ordering.antt =====
-- relay/delivery/ordering.py: the lock of an ordered endpoint and its queue of deliveries. Times
-- are milliseconds; `now` is the server's clock, by which PX counts.
pub mod Lock
pub mod Fifo
mod Tests
use web_hooks.Base.{ℕ, ◌+◌, ◌*◌, Option, none, some, ◌==◌, if◌then◌else◌}
use web_hooks.Redis.{Expiring, read, Queues}

abbrev pub lock_ttl : ℕ
lock_ttl = 30 * 1000

-- The key of a lock: SET NX succeeds where the key is absent or has expired. `token` is the fresh
-- `uuid4().hex`.
unfoldable pub acquire_lock : ℕ → ℕ → Option (Expiring ℕ) → Option (Expiring ℕ) × Option ℕ
unfolding read
acquire_lock now token lock = elim (read now lock) [
  | some _ ↦ (lock, none)
  | none ↦ (some (record { value = token; deadline = now + lock_ttl }), some token)
]

-- RELEASE_LOCK_LUA: delete the key only if it still holds `token`.
unfoldable pub release_lock : ℕ → ℕ → Option (Expiring ℕ) → Option (Expiring ℕ)
unfolding read
release_lock now token lock = elim (read now lock) [
  | none ↦ lock
  | some holder ↦ if holder == token then none else lock
]

module _ (Q : Queues ℕ) where
  open Q use {Queue, rpush, lindex0, lrem1}

  unfoldable pub enqueue_ordered : ℕ → Queue → Queue
  enqueue_ordered delivery_id q = rpush delivery_id q

  unfoldable pub peek_head : Queue → Option ℕ
  peek_head q = lindex0 q

  unfoldable pub pop_head : ℕ → Queue → Queue
  pop_head delivery_id q = lrem1 delivery_id q
