-- ===== src/Redis/Facts.antt =====
-- What follows from the laws of sorted sets: the sizes of the sets that commands leave.
use web_hooks.Base.{ℕ, ◌+◌, ◌≤◌, ◌≡◌, ◌≢◌, none, some, arith, subst, Option-cases, inl, inr}
use package.web_hooks.Redis.{SortedSets}

module _ {M : Type 0} (d : Discrete M) (S : SortedSets M) where
  open S use {
    ZSet, empty, zadd, zrem, zremrangebyscore, zcard, zscore, zscore-empty, zscore-zremrangebyscore,
    zcard_mono, zscore-zrem_self, zscore-zrem_ne, zcard-zadd_new, zcard-zrem_old, zcard-empty,
    zscore-zadd_self, zscore-zadd_ne,
  }

  pub zcard-zremrangebyscore-le : (now : ℕ) (z : ZSet) → zcard (zremrangebyscore now z) ≤ zcard z
  zcard-zremrangebyscore-le now z =
      zcard_mono _ z λ m h e. h (rw (zscore-zremrangebyscore now m z, e))

  pub zcard-zrem-le : (m : M) (z : ZSet) → zcard (zrem m z) ≤ zcard z
  zcard-zrem-le m z = zcard_mono _ z λ n h. elim (d m n) [
    | yes same ↦ absurd (h (subst (λ k. zscore k (zrem m z) ≡ none) same (zscore-zrem_self m z)))
    | no other ↦ rw (← zscore-zrem_ne m n z other) h
  ]

  pub zcard-zadd-le : (s : ℕ) (m : M) (z : ZSet) → zcard (zadd s m z) ≤ zcard z + 1
  zcard-zadd-le s m z = elim (Option-cases (zscore m z)) [
    | inl new ↦ omega (arith, zcard-zadd_new s m z new)
    | inr (t, old) ↦ omega (arith, zcard_mono (zadd s m z) z (was_there old))
  ]
    where
      was_there :
          {t : ℕ} → zscore m z ≡ some t → (n : M) → zscore n (zadd s m z) ≢ none → zscore n z ≢ none
      was_there old n h = elim (d m n) [
        | yes same ↦ subst (λ k. zscore k z ≢ none) same (λ e. cc)
        | no other ↦ rw (← zscore-zadd_ne s m n z other) h
      ]

  -- A set none of whose members outlives the sweep is empty after it.
  pub swept_empty :
      (now : ℕ) (z : ZSet)
      → ((m : M) (s : ℕ) → zscore m z ≡ some s → s ≤ now)
      → zcard (zremrangebyscore now z) ≡ 0
  swept_empty now z h =
      let bound : zcard (zremrangebyscore now z) ≤ zcard empty =
        zcard_mono _ _ (λ m e. absurd (e (gone m))) in
      omega (arith, bound, zcard-empty)
    where
      gone : (m : M) → zscore m (zremrangebyscore now z) ≡ none
      gone m = elim (Option-cases (zscore m z)) [
        | inl e ↦ rw (zscore-zremrangebyscore now m z, e)
        | inr (s, e) ↦ rw (zscore-zremrangebyscore now m z, e) (ground (arith, h m s e))
      ]
