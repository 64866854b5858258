-- ===== src/Agent/Trigger/Listener/Traversal.antt =====
-- What every event's handling keeps, the whole run of the trigger keeps.
use web_hooks.Base.{ℕ, List, [], ◌∷◌}
use web_hooks.Worker.Monad.Keeps.{Preorder}
use package.web_hooks.Agent.Trigger.Listener.{
  Trigger, Payload, Handled, handled, redis_failed, malformed, Poll, silent, failed, message,
  Connection, refused, subscribed, Finish, slept, left_by_stop, left_by_exception, Listener,
  handle_event, after_event, listen, run_connection, after_connection, run_trigger,
}

module _ (G : Trigger) (P : Preorder (Listener G))
    (event_related : (now day : ℕ) (payload : Payload) (s : Listener G)
      → P.Related s (handle_event G now day payload s).1) where
  listen-Related : (ps : List Poll) (s : Listener G) → P.Related s (listen G ps s).1
  unfolding listen
  listen-Related [] s = P.itself s
  listen-Related (silent ∷ ps) s = listen-Related ps s
  listen-Related (failed c ∷ ps) s = P.itself s
  listen-Related (message now day c payload ∷ ps) s =
      go (handle_event G now day payload s) (event_related now day payload s) (listen-Related ps)
    where
      go :
          (r : Handled × Listener G)
          → P.Related s r.1
          → ((t : Listener G) → P.Related t (listen G ps t).1)
          → P.Related s (after_event G c r.0 r.1 (listen G ps r.1)).1
      go (handled, t) h rest = P.then_ s t _ h (rest t)
      go (redis_failed, t) h rest = h
      go (malformed, t) h rest = h

  run_connection-Related :
      (c : Connection) (delay : ℕ) (s : Listener G) → P.Related s (run_connection G c delay s).1
  unfolding run_connection
  run_connection-Related (refused c) delay s = P.itself s
  run_connection-Related (subscribed ps) delay s = listen-Related ps s

  pub run_trigger-Related :
      (cs : List Connection) (delay : ℕ) (s : Listener G) → P.Related s (run_trigger G cs delay s).1
  unfolding run_trigger
  run_trigger-Related [] delay s = P.itself s
  run_trigger-Related (c ∷ cs) delay s =
      go (run_connection G c delay s) (run_connection-Related c delay s) (run_trigger-Related cs)
    where
      go :
          (r : (ℕ × Finish) × Listener G)
          → P.Related s r.1
          → ((delay : ℕ) (t : Listener G) → P.Related t (run_trigger G cs delay t).1)
          → P.Related s (after_connection G r.0.1 r.1 (run_trigger G cs r.0.0 r.1)).1
      go ((d, slept n), t) h rest = P.then_ s t _ h (rest d t)
      go ((d, left_by_stop), t) h rest = h
      go ((d, left_by_exception), t) h rest = h
