-- ===== src/Ordering/Tests.antt =====
-- The lock and the queue of an ordered endpoint at concrete inputs.
use web_hooks.Base.{◌≡◌, none, [], ◌∷◌, arith, refl}
use web_hooks.Ordering.{acquire_lock}
use web_hooks.Ordering.Lock.{acquire, release, lock_run, lock_exclusive}

-- The worker of token 7 holds the lock from 1000 on.
lock_exclusive_example :
    (acquire_lock 30999 9
      (lock_run (acquire_lock 1000 7 none).0 (acquire 2000 8 ∷ release 3000 8 ∷ []))).1
    ≡ none
lock_exclusive_example =
    lock_exclusive 1000 7 30999 9 none (acquire 2000 8 ∷ release 3000 8 ∷ [])
      (unfold acquire_lock in refl) (omega arith, ((λ e. omega arith), tt)) (omega arith)
