-- ===== src/Breaker/Opening.antt =====
-- When the circuit breaker opens, and how often a diagnosis is triggered on the way.
use web_hooks.Base.{
  ℕ, suc, ◌+◌, ◌≤◌, ◌≡◌, false, List, [], ◌∷◌, arith, length, if◌then◌else◌, leb, ◌==◌, ◌⊎◌,
}
use web_hooks.Redis.{SortedSets}
use web_hooks.Breaker.{
  closed, opened, half_open, or_closed, or_zero, is_closed, same_state, Breaker, Message,
  transition, consecutive_failures, record_outcome,
}

-- Attempts that fail, each with its time and identifier.
abbrev pub Failures : Type 0
Failures = List (ℕ × ℕ)

-- How many messages are the agent's early trigger.
abbrev pub triggers : List Message → ℕ
triggers [] = 0
triggers (consecutive_failures now n ∷ ms) = suc (triggers ms)
triggers (transition s t now n ∷ ms) = triggers ms

-- How many messages say that the breaker has opened.
abbrev pub openings : List Message → ℕ
openings [] = 0
openings (transition s opened now n ∷ ms) = suc (openings ms)
openings (transition s closed now n ∷ ms) = openings ms
openings (transition s half_open now n ∷ ms) = openings ms
openings (consecutive_failures now n ∷ ms) = openings ms

module _ (S : SortedSets ℕ) where
  -- Failures one after another: the breaker that they leave and how many messages of each kind
  -- were published.
  unfoldable pub fail_all : Failures → Breaker S → Breaker S × ℕ × ℕ
  fail_all [] b = (b, 0, 0)
  fail_all ((now, member) ∷ rest) b =
      let (b', o, messages) = record_outcome S now false member b in
      let (last, t, n) = fail_all rest b' in (last, triggers messages + t, openings messages + n)

  failure_counts :
      (now member : ℕ) (b : Breaker S)
      → or_zero (record_outcome S now false member b).0.hash.consecutive
        ≡ or_zero b.hash.consecutive + 1
  unfolding record_outcome
  failure_counts now member b = ground arith

  failure_triggers :
      (now member : ℕ) (b : Breaker S)
      → triggers (record_outcome S now false member b).2
        ≤ (if or_zero b.hash.consecutive == 4 then 1 else 0)
  unfolding record_outcome
  failure_triggers now member b = ground arith

  failure_opens :
      (now member : ℕ) (b : Breaker S)
      → (10 ≤ or_zero b.hash.consecutive + 1) ⊎ (is_closed (or_closed b.hash.state) ≡ false)
      → or_closed (record_outcome S now false member b).0.hash.state ≡ opened
  unfolding record_outcome
  failure_opens now member b h = ground arith

  failure_openings :
      (now member : ℕ) (b : Breaker S)
      → openings (record_outcome S now false member b).2
        ≤ (if same_state (or_closed b.hash.state) opened then 0 else 1)
  unfolding record_outcome
  failure_openings now member b = ground arith

  failure_stays_or_opens :
      (now member : ℕ) (b : Breaker S)
      → (or_closed (record_outcome S now false member b).0.hash.state ≡ opened)
        ⊎ (openings (record_outcome S now false member b).2 ≡ 0)
  unfolding record_outcome
  failure_stays_or_opens now member b = ground arith

  -- A row of failures with no success between them, which with those that the counter held before
  -- are ten or more, leaves the breaker open, from whatever state it was in and however far apart
  -- they lie; the counter then stands at their number.
  pub ten_failures_open :
      (fs : Failures) (b : Breaker S)
      → 10 ≤ or_zero b.hash.consecutive + length fs
      → 1 ≤ length fs
      → (or_closed (fail_all fs b).0.hash.state ≡ opened)
        × (or_zero (fail_all fs b).0.hash.consecutive ≡ or_zero b.hash.consecutive + length fs)
  unfolding fail_all
  ten_failures_open [] b h k = absurd (omega arith)
  ten_failures_open ((now, member) ∷ []) b h k =
      ground (arith, failure_counts now member b, failure_opens now member b)
  ten_failures_open ((now, member) ∷ f ∷ fs) b h k = ground (
    arith,
    failure_counts now member b,
    ten_failures_open (f ∷ fs) (record_outcome S now false member b).0,
  )

  -- In a row of failures, however long, the early trigger is published at most once, and not at all
  -- if five or more failures have been counted already; and the breaker opens at most once.
  pub one_trigger :
      (fs : Failures) (b : Breaker S)
      → ((fail_all fs b).1 ≤ (if leb 5 (or_zero b.hash.consecutive) then 0 else 1))
        × ((fail_all fs b).2 ≤ (if same_state (or_closed b.hash.state) opened then 0 else 1))
  unfolding fail_all
  one_trigger [] b = ground arith
  one_trigger ((now, member) ∷ fs) b =
      let ih = one_trigger fs (record_outcome S now false member b).0 in
      (
        ground (arith, ih.0, failure_counts now member b, failure_triggers now member b),
        ground (
          arith,
          ih.1,
          failure_openings now member b,
          failure_stays_or_opens now member b,
          failure_opens now member b,
        ),
      )
