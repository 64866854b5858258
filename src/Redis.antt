-- ===== src/Redis.antt =====
-- What the scripts and clients of relay/delivery use of Redis, as records of commands with the laws
-- that Redis documents for them. Every user takes such a record as a parameter; `Concrete` has one.
pub mod Concrete
pub mod Facts
pub mod Sequence
use web_hooks.Base.{
  ℕ, ◌+◌, ◌≤◌, ◌≡◌, ◌≢◌, Option, none, some, List, [], ◌∷◌, ◌++◌, length, leb, if◌then◌else◌, All,
  Elem, ◌<◌, head?,
}

-- What ZREMRANGEBYSCORE from -inf to `limit` leaves of a member's score.
abbrev pub above : ℕ → Option ℕ → Option ℕ
above limit none = none
above limit (some s) = if leb s limit then none else some s

-- Sorted sets with members of type `M`; `zscore` is the view by which the laws are stated.
pub record SortedSets (M : Type 0) : Type 1 where
  pub ZSet : Type 0
  pub empty : ZSet
  pub zadd : ℕ → M → ZSet → ZSet
  pub zrem : M → ZSet → ZSet
  -- ZREMRANGEBYSCORE key -inf limit
  pub zremrangebyscore : ℕ → ZSet → ZSet
  pub zcard : ZSet → ℕ
  -- ZRANGEBYSCORE key -inf limit LIMIT 0 count
  pub zrangebyscore : ℕ → ℕ → ZSet → List M
  pub zscore : M → ZSet → Option ℕ
  pub zscore-empty : (m : M) → zscore m empty ≡ none
  pub zscore-zadd_self : (s : ℕ) (m : M) (z : ZSet) → zscore m (zadd s m z) ≡ some s
  pub zscore-zadd_ne : (s : ℕ) (m n : M) (z : ZSet) → m ≢ n → zscore n (zadd s m z) ≡ zscore n z
  pub zscore-zrem_self : (m : M) (z : ZSet) → zscore m (zrem m z) ≡ none
  pub zscore-zrem_ne : (m n : M) (z : ZSet) → m ≢ n → zscore n (zrem m z) ≡ zscore n z
  pub zscore-zremrangebyscore :
      (limit : ℕ) (m : M) (z : ZSet)
      → zscore m (zremrangebyscore limit z) ≡ above limit (zscore m z)
  pub zcard-empty : zcard empty ≡ 0
  pub zcard-zadd_new :
      (s : ℕ) (m : M) (z : ZSet) → zscore m z ≡ none → zcard (zadd s m z) ≡ zcard z + 1
  pub zcard-zrem_old : (m : M) (z : ZSet) → zscore m z ≢ none → zcard (zrem m z) + 1 ≡ zcard z
  -- A set of which each member is one of the other has no more members.
  pub zcard_mono :
      (y z : ZSet) → ((m : M) → zscore m y ≢ none → zscore m z ≢ none) → zcard y ≤ zcard z
  -- The range holds only members that are due, at most `count` of them, and if it holds fewer
  -- than `count` then it holds all.
  pub zrangebyscore_due :
      (limit count : ℕ) (z : ZSet)
      → All (λ m. (s : ℕ) × (zscore m z ≡ some s) × (s ≤ limit)) (zrangebyscore limit count z)
  pub length-zrangebyscore :
      (limit count : ℕ) (z : ZSet) → length (zrangebyscore limit count z) ≤ count
  pub zrangebyscore_all :
      (limit count : ℕ) (m : M) (z : ZSet) {s : ℕ}
      → zscore m z ≡ some s
      → s ≤ limit
      → length (zrangebyscore limit count z) < count
      → Elem m (zrangebyscore limit count z)

-- Redis lists with elements of type `A`, seen through `items`, head first.
pub record Queues (A : Type 0) : Type 1 where
  pub Queue : Type 0
  pub none_yet : Queue
  pub rpush : A → Queue → Queue
  -- LINDEX key 0
  pub lindex0 : Queue → Option A
  -- LREM key 1 a: without the first `a`
  pub lrem1 : A → Queue → Queue
  pub items : Queue → List A
  pub items-none_yet : items none_yet ≡ []
  pub items-rpush : (a : A) (q : Queue) → items (rpush a q) ≡ items q ++ a ∷ []
  pub lindex0-items : (q : Queue) → lindex0 q ≡ head? (items q)
  pub items-lrem1_head :
      (a : A) (q : Queue) (rest : List A) → items q ≡ a ∷ rest → items (lrem1 a q) ≡ rest
  pub items-lrem1_absent : (a : A) (q : Queue) → ¬ Elem a (items q) → items (lrem1 a q) ≡ items q

-- A value under a key that EXPIRE, or SET with PX, has given a time to live; `none` is no key.
pub record Expiring (A : Type 0) : Type 0 where
  pub value : A
  pub deadline : ℕ

-- What a command sees of the key at the time `now`.
unfoldable pub read : {A : Type 0} → ℕ → Option (Expiring A) → Option A
read now none = none
read now (some e) = if leb e.deadline now then none else some e.value
