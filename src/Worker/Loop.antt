-- ===== src/Worker/Loop.antt =====
-- relay/delivery/worker.py: `reclaim_stale` and the rounds of `consume_shard`. What Redis answers to
-- XAUTOCLAIM and XREADGROUP is part of a round; the calls themselves fail by the world's faults.
-- Only errors of Redis reach a round, since `handle_message` catches those of a delivery.
pub mod Backoff
use web_hooks.Base.{
  ℕ, suc, ◌+◌, ◌*◌, Bool, true, false, ◌||◌, Option, none, some, List, [], ◌∷◌, leb, min,
  if◌then◌else◌,
}
use web_hooks.Services.{Services, World}
use web_hooks.RetryQueue.{Uuid}
use web_hooks.Worker.{Env}
use web_hooks.Worker.Monad.{Result, ok, raised, Action, pure, raise, command, ◌>>=◌, ◌>>◌}
use web_hooks.Worker.Gates.{handle_message}

abbrev pub reconnect_base_delay : ℕ
reconnect_base_delay = 500

abbrev pub reconnect_max_delay : ℕ
reconnect_max_delay = 10 * 1000

abbrev pub reclaim_interval : ℕ
reclaim_interval = 30 * 1000

-- A stream entry, with what the run over it reads of the outside.
pub record Entry : Type 1 where
  pub message_id : ℕ
  pub delivery_id : Uuid
  pub env : Env

-- One answer of XAUTOCLAIM: whether its cursor is "0-0", and the entries taken over.
pub record Page : Type 1 where
  pub is_last : Bool
  pub entries : List Entry

-- The variables of the loop.
pub record Loop : Type 0 where
  pub delay : ℕ
  pub next_reclaim : ℕ

-- What a round reads: the loop's clock at its start and after a reclaim, and the answers.
pub record Round : Type 1 where
  pub time : ℕ
  pub reclaimed_at : ℕ
  pub pages : List Page
  pub entries : List Entry

module _ (V : Services) where
  unfoldable pub handle_all : List Entry → Action (World V) (Unit {0})
  handle_all [] = pure tt
  handle_all (e ∷ es) = do handle_message V e.env e.message_id e.delivery_id; handle_all es

  abbrev pub is_empty : List Entry → Bool
  is_empty [] = true
  is_empty (e ∷ es) = false

  abbrev pub count : List Entry → ℕ
  count [] = 0
  count (e ∷ es) = suc (count es)

  -- The answers in turn, until the cursor is "0-0" or nothing was taken over; a server that answers
  -- no more is a failed call.
  unfoldable pub reclaim_stale : List Page → Action (World V) ℕ
  unfolding handle_all
  reclaim_stale [] = raise
  reclaim_stale (p ∷ ps) = do
    command (λ w. w)
    handle_all p.entries
    if p.is_last || is_empty p.entries
        then pure (count p.entries)
        else (do rest ← reclaim_stale ps; pure (count p.entries + rest))

  unfoldable pub reclaim_if : Round → Loop → Action (World V) Loop
  unfolding reclaim_stale
  reclaim_if r l =
      if leb l.next_reclaim r.time
      then (do
        reclaim_stale r.pages
        pure (record l { next_reclaim = r.reclaimed_at + reclaim_interval }))
      else pure l

  -- `except (RedisError, OSError)`: the sleep, and the doubled delay.
  abbrev pub back_off : Loop → Loop × Option ℕ
  back_off l = (record l { delay = min (l.delay * 2) reconnect_max_delay }, some l.delay)

  abbrev pub after_handling : {A : Type 0} → Loop → Result A → Loop × Option ℕ
  after_handling l raised = back_off l
  after_handling l (ok a) = (l, none)

  unfoldable pub after_read :
      Round → Loop → Result (Unit {0}) → World V → (Loop × Option ℕ) × World V
  unfolding handle_all
  after_read r l raised w = (back_off l, w)
  after_read r l (ok a) w =
      let (handled, w') = handle_all r.entries w in
      (after_handling (record l { delay = reconnect_base_delay }) handled, w')

  unfoldable pub after_reclaim : Round → Loop → Result Loop → World V → (Loop × Option ℕ) × World V
  unfolding after_read
  after_reclaim r l raised w = (back_off l, w)
  after_reclaim r l (ok l') w =
      let (read, w') = command {V = V} (λ v. v) w in after_read r l' read w'

  -- One round of the loop, and how long it sleeps at its end.
  unfoldable pub consume_round : Round → Loop → World V → (Loop × Option ℕ) × World V
  unfolding reclaim_if after_reclaim
  consume_round r l w = let (reclaimed, w') = reclaim_if r l w in after_reclaim r l reclaimed w'

  -- Rounds one after another, with the pauses between them.
  unfoldable pub consume_shard : List Round → Loop → World V → List (Option ℕ) × Loop × World V
  unfolding consume_round
  consume_shard [] l w = ([], l, w)
  consume_shard (r ∷ rs) l w =
      let ((l', sleep), w') = consume_round r l w in
      let (sleeps, last, w'') = consume_shard rs l' w' in (sleep ∷ sleeps, last, w'')
