-- ===== src/Breaker/States.antt =====
-- The state machine of the circuit breaker, and the invariant of its hash.
use web_hooks.Base.{
  ℕ, ◌+◌, ◌<◌, ◌≡◌, refl, inl, inr, Bool, true, false, ◌||◌, leb, if◌then◌else◌, Bool-cases, subst,
  sym, Option, none, some, List, [], ◌∷◌, arith,
}
use web_hooks.Redis.{SortedSets}
use web_hooks.Breaker.{
  State, closed, opened, half_open, Hash, or_closed, or_zero, Breaker, record_outcome,
  allow_request, reset, BreakerOp, outcome, ask, force_closed, expire_attempts, expire_failures,
  breaker_step, half_open_probe_interval, is_closed, breaker_run, slide, next_state,
  consecutive_failure_threshold, settle, rate_tripped,
}

-- closed → open → half_open → (closed | open), with what causes each change.
pub data Edge {S : SortedSets ℕ} (op : BreakerOp S) : State → State → Type 0 where
  stays : {s : State} → Edge op s s
  opens : {now member : ℕ} → op ≡ outcome now false member → Edge op closed opened
  probes : {now : ℕ} → op ≡ ask now → Edge op opened half_open
  probe_fails : {now member : ℕ} → op ≡ outcome now false member → Edge op half_open opened
  recovers : {now member : ℕ} {s : State} → op ≡ outcome now true member → Edge op s closed
  forced : {s : State} → op ≡ force_closed → Edge op s closed

abbrev pub is_some : Option ℕ → Bool
is_some none = false
is_some (some t) = true

-- The hash of a closed breaker counts fewer failures than open it and has no times; that of another
-- has the moment when it opened and that of its last probe.
pub record IsSound (h : Hash) : Type 0 where
  pub below : or_closed h.state ≡ closed → or_zero h.consecutive < consecutive_failure_threshold
  pub no_opened_at : or_closed h.state ≡ closed → h.opened_at ≡ none
  pub no_last_probe_at : or_closed h.state ≡ closed → h.last_probe_at ≡ none
  pub has_opened_at : is_closed (or_closed h.state) ≡ false → is_some h.opened_at ≡ true
  pub has_last_probe_at : is_closed (or_closed h.state) ≡ false → is_some h.last_probe_at ≡ true

module _ (S : SortedSets ℕ) where
  next_state-Edge :
      (now member : ℕ) (s : State) (success : Bool) (consecutive attempts failures : ℕ)
      → Edge {S = S}
          (outcome now success member)
          s
          (next_state s success consecutive attempts failures)
  unfolding next_state
  next_state-Edge now member closed true c a f = recovers refl
  next_state-Edge now member opened true c a f = recovers refl
  next_state-Edge now member half_open true c a f = recovers refl
  next_state-Edge now member opened false c a f = stays
  next_state-Edge now member half_open false c a f = probe_fails refl
  next_state-Edge now member closed false c a f = elim (Bool-cases (leb 10 c || rate_tripped a f)) [
    | inl e ↦ rw e (opens refl)
    | inr e ↦ rw e stays
  ]

  state-settle :
      (now : ℕ) (s t : State) (b : Breaker S)
      → or_closed b.hash.state ≡ s
      → or_closed (settle S now s t b).hash.state ≡ t
  unfolding settle
  state-settle now s t b h = ground arith

  ask-Edge :
      (now : ℕ) (b : Breaker S)
      → Edge {S = S}
          (ask now)
          (or_closed b.hash.state)
          (or_closed (allow_request S now b).0.hash.state)
  unfolding allow_request
  ask-Edge now b = go b.hash.state refl
    where
      go :
          (o : Option State)
          → b.hash.state ≡ o
          → Edge {S = S} (ask now) (or_closed o) (or_closed (allow_request S now b).0.hash.state)
      go none e = rw (e, allow_request, e) stays
      go (some closed) e = rw (e, allow_request, e) stays
      go (some opened) e =
          elim (Bool-cases (leb (or_zero b.hash.last_probe_at + half_open_probe_interval) now)) [
            | inl due ↦ rw (e, allow_request, due) (probes refl)
            | inr early ↦ rw (e, allow_request, early, e) stays
          ]
      go (some half_open) e = rw (e, allow_request, e) stays

  -- Each operation follows an edge of the diagram: the breaker opens only by a failure, leaves
  -- 'open' for 'half_open' only when a caller asks, and closes only by a success or by force.
  pub breaker_step-Edge :
      (b : Breaker S) (op : BreakerOp S)
      → Edge op (or_closed b.hash.state) (or_closed (breaker_step S b op).hash.state)
  unfolding breaker_step record_outcome allow_request reset
  breaker_step-Edge b (outcome now success member) =
      let slid = slide S now success member b in
      let count = if success then 0 else or_zero b.hash.consecutive + 1 in
      let s = or_closed b.hash.state in
      let t = next_state s success count (S.zcard slid.attempts) (S.zcard slid.failures) in
      let counted = record slid { hash = record b.hash { consecutive = some count } } in
      subst (Edge (outcome now success member) s) (sym (state-settle now s t counted refl))
        (next_state-Edge now member s success count (S.zcard slid.attempts) (S.zcard slid.failures))
  breaker_step-Edge b (ask now) = ask-Edge now b
  breaker_step-Edge b force_closed = forced refl
  breaker_step-Edge b expire_attempts = stays
  breaker_step-Edge b expire_failures = stays

  breaker_step-IsSound :
      (b : Breaker S) (op : BreakerOp S) → IsSound b.hash → IsSound (breaker_step S b op).hash
  unfolding breaker_step record_outcome allow_request reset
  breaker_step-IsSound b (outcome now success member) h = ground arith
  breaker_step-IsSound b (ask now) h = ground arith
  breaker_step-IsSound b force_closed h = ground arith
  breaker_step-IsSound b expire_attempts h = h
  breaker_step-IsSound b expire_failures h = h

  -- After any operations on an endpoint's breaker, in any order and with any clocks, the invariant
  -- of its hash holds if it held before.
  pub breaker_run-IsSound :
      (b : Breaker S) (ops : List (BreakerOp S))
      → IsSound b.hash
      → IsSound (breaker_run S b ops).hash
  unfolding breaker_run
  breaker_run-IsSound b [] h = h
  breaker_run-IsSound b (op ∷ ops) h =
      breaker_run-IsSound (breaker_step S b op) ops (breaker_step-IsSound b op h)
