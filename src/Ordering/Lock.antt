-- ===== src/Ordering/Lock.antt =====
-- Mutual exclusion of the workers of one endpoint, and what the expiry of the lock means.
use web_hooks.Base.{ℕ, ◌+◌, ◌≤◌, ◌<◌, ◌≡◌, ◌≢◌, Option, none, some, List, [], ◌∷◌, arith, All, refl}
use web_hooks.Redis.{Expiring, read}
use web_hooks.Ordering.{lock_ttl, acquire_lock, release_lock}

pub data LockOp : Type 0 where
  acquire : (now token : ℕ) → LockOp
  release : (now token : ℕ) → LockOp

unfoldable pub lock_step : Option (Expiring ℕ) → LockOp → Option (Expiring ℕ)
lock_step lock (acquire now token) = (acquire_lock now token lock).0
lock_step lock (release now token) = release_lock now token lock

unfoldable pub lock_run : Option (Expiring ℕ) → List LockOp → Option (Expiring ℕ)
lock_run lock [] = lock
lock_run lock (op ∷ ops) = lock_run (lock_step lock op) ops

-- What other workers do before `until`: they try to acquire, and they release their own tokens.
abbrev pub ByOther : (token until : ℕ) → LockOp → Type 0
ByOther token until (acquire now t) = now < until
ByOther token until (release now t) = t ≢ token

abbrev held : ℕ → ℕ → Option (Expiring ℕ)
held token until = some (record { value = token; deadline = until })

held_step :
    (token until : ℕ) (op : LockOp)
    → ByOther token until op
    → lock_step (held token until) op ≡ held token until
unfolding lock_step acquire_lock release_lock
held_step token until (acquire now t) h = ground arith
held_step token until (release now t) h = ground arith

held_through :
    (token until : ℕ) (ops : List LockOp)
    → All (ByOther token until) ops
    → lock_run (held token until) ops ≡ held token until
unfolding lock_run
held_through token until [] h = refl
held_through token until (op ∷ ops) h =
    rw (held_step token until op h.0) (held_through token until ops h.1)

granted_lock :
    (now token : ℕ) (lock : Option (Expiring ℕ))
    → (acquire_lock now token lock).1 ≡ some token
    → (acquire_lock now token lock).0 ≡ held token (now + lock_ttl)
unfolding acquire_lock
granted_lock now token lock h = ground arith

-- After a lock was granted at `now`, and whatever attempts and releases of their own tokens the
-- other workers make in the next thirty seconds, each further attempt in that time is refused.
pub lock_exclusive :
    (now token later other : ℕ) (lock : Option (Expiring ℕ)) (ops : List LockOp)
    → (acquire_lock now token lock).1 ≡ some token
    → All (ByOther token (now + lock_ttl)) ops
    → later < now + lock_ttl
    → (acquire_lock later other (lock_run (acquire_lock now token lock).0 ops)).1 ≡ none
lock_exclusive now token later other lock ops granted h before =
    rw (granted_lock now token lock granted, held_through token (now + lock_ttl) ops h)
      (unfold acquire_lock read in ground arith)

-- A holder that returns after its lock has passed to another does not end the other's hold.
pub late_release_harmless :
    (now later token other : ℕ) (lock : Option (Expiring ℕ))
    → token ≢ other
    → (acquire_lock now other lock).1 ≡ some other
    → release_lock later token (acquire_lock now other lock).0 ≡ (acquire_lock now other lock).0
unfolding acquire_lock release_lock
late_release_harmless now later token other lock ne h = ground arith

-- After the holder's release the lock is granted to whoever asks next; and thirty seconds after
-- the grant it is, also where the holder has died without a release.
pub lock_comes_free :
    (now token later late other : ℕ) (lock : Option (Expiring ℕ))
    → (acquire_lock now token lock).1 ≡ some token
    → now + lock_ttl ≤ late
    → ((acquire_lock later other (release_lock now token (acquire_lock now token lock).0)).1
        ≡ some other)
      × ((acquire_lock late other (acquire_lock now token lock).0).1 ≡ some other)
unfolding acquire_lock release_lock
lock_comes_free now token later late other lock h l = ground arith
