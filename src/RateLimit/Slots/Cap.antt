-- ===== src/RateLimit/Slots/Cap.antt =====
-- The cap holds in every interleaving, and a slot that was never returned comes free.
use web_hooks.Base.{
  All, ℕ, ◌+◌, ◌≤◌, ◌<◌, ◌≡◌, ◌≢◌, none, some, List, [], ◌∷◌, arith, ◌↔◌, ℕ_discrete,
}
use web_hooks.Redis.{SortedSets}
use web_hooks.Redis.Facts.{zcard-zremrangebyscore-le, zcard-zrem-le, zcard-zadd-le, swept_empty}
use web_hooks.RateLimit.Slots.{
  slot_ttl, acquire_slot, release_slot, inflight_count, SlotOp, acquire, release, count, expire,
  slot_step, slot_run,
}

module _ (S : SortedSets ℕ) where
  open S use {
    ZSet, empty, zadd, zrem, zremrangebyscore, zcard, zscore, zcard-empty, zscore-zadd_self,
    zscore-zrem_self, zscore-zadd_ne, zscore-zrem_ne, zscore-zremrangebyscore,
  }

  slot_step-le-cap :
      (cap : ℕ) (slots : ZSet) (op : SlotOp S)
      → zcard slots ≤ cap
      → zcard (slot_step S cap slots op) ≤ cap
  unfolding slot_step acquire_slot release_slot inflight_count
  slot_step-le-cap cap slots (acquire now token) h = ground (
    arith,
    zcard-zremrangebyscore-le ℕ_discrete S now slots,
    zcard-zadd-le ℕ_discrete S (now + slot_ttl) token (zremrangebyscore now slots),
  )
  slot_step-le-cap cap slots (release token) h =
      omega (arith, zcard-zrem-le ℕ_discrete S token slots)
  slot_step-le-cap cap slots (count now) h =
      omega (arith, zcard-zremrangebyscore-le ℕ_discrete S now slots)
  slot_step-le-cap cap slots expire h = omega (arith, zcard-empty)

  -- If no more slots than the cap are held, then whatever the workers of a tenant do, in whatever
  -- order and with whatever clocks, and whenever the server drops the key, no more than the cap
  -- are held.
  pub slot_run-le-cap :
      (cap : ℕ) (slots : ZSet) (ops : List (SlotOp S))
      → zcard slots ≤ cap
      → zcard (slot_run S cap slots ops) ≤ cap
  unfolding slot_run
  slot_run-le-cap cap slots [] h = h
  slot_run-le-cap cap slots (op ∷ ops) h =
      slot_run-le-cap cap (slot_step S cap slots op) ops (slot_step-le-cap cap slots op h)

  -- A slot is refused exactly when the count at that moment has reached the cap.
  pub acquire_slot-none_iff :
      (cap now token : ℕ) (slots : ZSet)
      → ((acquire_slot S cap now token slots).1 ≡ none) ↔ (cap ≤ (inflight_count S now slots).1)
  unfolding acquire_slot inflight_count
  acquire_slot-none_iff cap now token slots = ground arith

  -- If every slot has passed its expiry, as when the workers that held them died, and the cap is
  -- not 0, then a slot is granted, and it is the only one held.
  pub expired_slots_free :
      (cap now token : ℕ) (slots : ZSet)
      → 1 ≤ cap
      → ((m s : ℕ) → zscore m slots ≡ some s → s ≤ now)
      → ((acquire_slot S cap now token slots).1 ≡ some token)
        × (zcard (acquire_slot S cap now token slots).0 ≤ 1)
  unfolding acquire_slot
  expired_slots_free cap now token slots h old = ground (
    arith,
    swept_empty ℕ_discrete S now slots old,
    zcard-zadd-le ℕ_discrete S (now + slot_ttl) token (zremrangebyscore now slots),
  )

  -- An operation that does not touch `token`, from a clock before `until`.
  abbrev pub LeavesSlot : (token until : ℕ) → SlotOp S → Type 0
  LeavesSlot token until (acquire now t) = (now < until) × (t ≢ token)
  LeavesSlot token until (release t) = t ≢ token
  LeavesSlot token until (count now) = now < until
  LeavesSlot token until expire = ⊥

  slot_step_keeps :
      (cap token until : ℕ) (slots : ZSet) (op : SlotOp S)
      → LeavesSlot token until op
      → zscore token slots ≡ some until
      → zscore token (slot_step S cap slots op) ≡ some until
  unfolding slot_step acquire_slot release_slot inflight_count
  slot_step_keeps cap token until slots (acquire now t) k h = ground (
    arith,
    zscore-zremrangebyscore now token slots,
    zscore-zadd_ne (now + slot_ttl) t token (zremrangebyscore now slots) k.1,
  )
  slot_step_keeps cap token until slots (release t) k h = rw (zscore-zrem_ne t token slots k) h
  slot_step_keeps cap token until slots (count now) k h =
      ground (arith, zscore-zremrangebyscore now token slots)
  slot_step_keeps cap token until slots expire k h = absurd k

  slot_run_keeps :
      (cap token until : ℕ) (slots : ZSet) (ops : List (SlotOp S))
      → All (LeavesSlot token until) ops
      → zscore token slots ≡ some until
      → zscore token (slot_run S cap slots ops) ≡ some until
  unfolding slot_run
  slot_run_keeps cap token until slots [] k h = h
  slot_run_keeps cap token until slots (op ∷ ops) k h =
      slot_run_keeps cap token until (slot_step S cap slots op) ops k.1
        (slot_step_keeps cap token until slots op k.0 h)

  -- A slot that was granted at `now` is held through everything that others do by clocks before
  -- its expiry, a minute later, unless the server drops the key, and its holder's release ends
  -- that.
  pub granted_slot_held :
      (cap now token : ℕ) (slots : ZSet) (ops : List (SlotOp S))
      → (acquire_slot S cap now token slots).1 ≡ some token
      → All (LeavesSlot token (now + slot_ttl)) ops
      → (zscore token (slot_run S cap (acquire_slot S cap now token slots).0 ops)
          ≡ some (now + slot_ttl))
        × (zscore token
              (release_slot S token (slot_run S cap (acquire_slot S cap now token slots).0 ops))
            ≡ none)
  granted_slot_held cap now token slots ops granted k = (
    slot_run_keeps cap token (now + slot_ttl) _ ops k entered,
    unfold release_slot in zscore-zrem_self token _,
  )
    where
      entered : zscore token (acquire_slot S cap now token slots).0 ≡ some (now + slot_ttl)
      entered =
          unfold acquire_slot in
          ground
            (arith, granted, zscore-zadd_self (now + slot_ttl) token (zremrangebyscore now slots))
