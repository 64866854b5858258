-- ===== src/RateLimit/Slots.antt =====
-- The concurrency cap of relay/delivery/rate_limit.py (ACQUIRE_SLOT_LUA, acquire_slot,
-- release_slot, inflight_count): a sorted set of tokens scored by their expiry, in milliseconds.
-- EXPIRE on the key is an operation of its own, by which the server may drop the key.
pub mod Cap
use web_hooks.Base.{
  ℕ, ◌+◌, ◌*◌, Bool, true, false, Option, none, some, List, [], ◌∷◌, leb, if◌then◌else◌,
}
use web_hooks.Redis.{SortedSets}

abbrev pub slot_ttl : ℕ
slot_ttl = 60 * 1000

module _ (S : SortedSets ℕ) where
  open S use {ZSet, empty, zadd, zrem, zremrangebyscore, zcard}

  -- ACQUIRE_SLOT_LUA: sweep, then refuse at the cap.
  unfoldable pub acquire_script : ℕ → ℕ → ℕ → ℕ → ZSet → ZSet × Bool
  acquire_script cap now token ttl slots =
      let swept = zremrangebyscore now slots in
      if leb cap (zcard swept) then (swept, false) else (zadd (now + ttl) token swept, true)

  -- `token` is the fresh `uuid4().hex`; it is returned if the slot is granted.
  unfoldable pub acquire_slot : ℕ → ℕ → ℕ → ZSet → ZSet × Option ℕ
  unfolding acquire_script
  acquire_slot max_inflight now token slots =
      let (slots', granted) = acquire_script max_inflight now token slot_ttl slots in
      (slots', (if granted then some token else none))

  unfoldable pub release_slot : ℕ → ZSet → ZSet
  release_slot token slots = zrem token slots

  unfoldable pub inflight_count : ℕ → ZSet → ZSet × ℕ
  inflight_count now slots = let swept = zremrangebyscore now slots in (swept, zcard swept)

  -- What the workers and the server do to one tenant's key, each atomically.
  pub data SlotOp : Type 0 where
    acquire : (now token : ℕ) → SlotOp
    release : (token : ℕ) → SlotOp
    count : (now : ℕ) → SlotOp
    expire : SlotOp

  unfoldable pub slot_step : ℕ → ZSet → SlotOp → ZSet
  slot_step cap slots (acquire now token) = (acquire_slot cap now token slots).0
  slot_step cap slots (release token) = release_slot token slots
  slot_step cap slots (count now) = (inflight_count now slots).0
  slot_step cap slots expire = empty

  unfoldable pub slot_run : ℕ → ZSet → List SlotOp → ZSet
  slot_run cap slots [] = slots
  slot_run cap slots (op ∷ ops) = slot_run cap (slot_step cap slots op) ops
