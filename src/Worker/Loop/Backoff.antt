-- ===== src/Worker/Loop/Backoff.antt =====
-- The consumer's pauses, and what a round without failures does.
use web_hooks.Base.{
  ℕ, ◌≤◌, Option, none, some, List, [], ◌∷◌, leb, arith, All, Bool-cases, inl, inr,
}
use web_hooks.Services.{Services, World}
use web_hooks.Worker.Monad.{
  Result, ok, raised, command, Returns, Returns-bind, Returns-pure, Returns-mono,
}
use web_hooks.Worker.Loop.{
  reconnect_base_delay, reconnect_max_delay, Loop, Round, handle_all, reclaim_stale, reclaim_if,
  after_handling, after_read, after_reclaim, consume_round, consume_shard,
}

-- The delay of a loop lies between half a second and ten seconds.
abbrev pub IsPaced : Loop → Type 0
IsPaced l = (reconnect_base_delay ≤ l.delay) × (l.delay ≤ reconnect_max_delay)

abbrev pub IsBounded : Option ℕ → Type 0
IsBounded none = Unit {0}
IsBounded (some t) = (reconnect_base_delay ≤ t) × (t ≤ reconnect_max_delay)

module _ (V : Services) where
  Good : (Loop × Option ℕ) × World V → Type 0
  Good ((l, sleep), w) = IsPaced l × IsBounded sleep

  after_read-Good :
      (r : Round) (l : Loop) (read : Result (Unit {0})) (w : World V)
      → IsPaced l
      → Good (after_read V r l read w)
  unfolding after_read Good
  after_read-Good r l raised w h = ground (arith, h)
  after_read-Good r l (ok a) w h = go (handle_all V r.entries w)
    where
      go :
          (x : Result (Unit {0}) × World V)
          → Good (after_handling V (record l { delay = reconnect_base_delay }) x.0, x.1)
      go (raised, v) = unfold Good in ground (arith)
      go (ok a, v) = unfold Good in ground (arith)

  after_reclaim-Good :
      (r : Round) (l : Loop) (x : Result Loop) (w : World V)
      → IsPaced l
      → Returns (λ l' w'. IsPaced l') (λ w'. Unit {0}) (x, w)
      → Good (after_reclaim V r l x w)
  unfolding after_reclaim Good
  after_reclaim-Good r l raised w h k = ground (arith, h)
  after_reclaim-Good r l (ok l') w h k =
      let read = command {V = V} (λ v. v) w in after_read-Good r l' read.0 read.1 k

  any : {A : Type 0} (x : Result A × World V) → Returns (λ a w'. Unit {0}) (λ w'. Unit {0}) x
  any (raised, w) = tt
  any (ok a, w) = tt

  reclaim_if-IsPaced :
      (r : Round) (l : Loop) (w : World V)
      → IsPaced l
      → Returns (λ l' w'. IsPaced l') (λ w'. Unit {0}) (reclaim_if V r l w)
  unfolding reclaim_if
  reclaim_if-IsPaced r l w h = elim (Bool-cases (leb l.next_reclaim r.time)) [
    | inl due ↦ rw due (
        Returns-bind _ _ _ _ w (
          Returns-mono _ _ _ _ (reclaim_stale V r.pages w) (λ a v k. Returns-pure _ _ _ v h)
            (λ v k. tt) (any (reclaim_stale V r.pages w))))
    | inr early ↦ rw early (Returns-pure _ _ _ w h)
  ]

  consume_round-Good :
      (r : Round) (l : Loop) (w : World V) → IsPaced l → Good (consume_round V r l w)
  unfolding consume_round
  consume_round-Good r l w h =
      let x = reclaim_if V r l w in after_reclaim-Good r l x.0 x.1 h (reclaim_if-IsPaced r l w h)

  -- Whatever calls fail in whatever rounds, the consumer of a shard whose delay lies between half
  -- a second and ten seconds ends each round with no pause or one between these, and its delay
  -- stays between them.
  pub consume_shard-IsBounded :
      (rs : List Round) (l : Loop) (w : World V)
      → IsPaced l
      → All IsBounded (consume_shard V rs l w).0 × IsPaced (consume_shard V rs l w).1
  unfolding consume_shard Good
  consume_shard-IsBounded [] l w h = (tt, h)
  consume_shard-IsBounded (r ∷ rs) l w h =
      let step = consume_round V r l w in
      let good = consume_round-Good r l w h in
      let rest = consume_shard-IsBounded rs step.0.0 step.1 good.0 in ((good.1, rest.0), rest.1)
