-- ===== src/Redis/Concrete.antt =====
-- An implementation of the commands by lists, which shows that the documented laws can hold
-- together. A sorted set is its history of ZADDs, the last first; an older entry of a member is
-- hidden by a newer one.
use mathlib.Core.Logic.{ite, if_pos, if_neg}
use web_hooks.Base.{
  ℕ, zero, suc, ◌+◌, ◌≤◌, ◌<◌, ◌≡◌, ◌≢◌, refl, sym, subst, inl, inr, Option, none, some, List, [],
  ◌∷◌, length, take, arith, leb, Bool-cases, Option-cases, All, Elem, if◌then◌else◌,
}
use package.web_hooks.Redis.{SortedSets, above}

module _ {M : Type 0} (d : Discrete M) where
  abbrev pub Entries : Type 0
  Entries = List (ℕ × M)

  unfoldable pub zscore : M → Entries → Option ℕ
  zscore m [] = none
  zscore m ((s, n) ∷ z) = ite (d n m) (some s) (zscore m z)

  unfoldable pub zrem : M → Entries → Entries
  zrem m [] = []
  zrem m ((s, n) ∷ z) = ite (d n m) (zrem m z) ((s, n) ∷ zrem m z)

  unfoldable pub zremrangebyscore : ℕ → Entries → Entries
  zremrangebyscore limit [] = []
  zremrangebyscore limit ((s, m) ∷ z) =
      let rest = zremrangebyscore limit z in if leb s limit then zrem m rest else (s, m) ∷ rest

  unfoldable pub zcard : Entries → ℕ
  zcard [] = 0
  zcard ((s, m) ∷ z) = let rest = zcard z in elim (zscore m z) [ none ↦ suc rest | some _ ↦ rest ]

  pub zcard-zadd_new :
      (s : ℕ) (m : M) (z : Entries) → zscore m z ≡ none → zcard ((s, m) ∷ z) ≡ zcard z + 1
  unfolding zcard
  zcard-zadd_new s m z h = rw (h, zcard) (omega arith)

  unfoldable pub without : M → List M → List M
  without m [] = []
  without m (n ∷ l) = ite (d n m) (without m l) (n ∷ without m l)

  unfoldable pub due : ℕ → Entries → List M
  due limit [] = []
  due limit ((s, m) ∷ z) =
      let rest = without m (due limit z) in if leb s limit then m ∷ rest else rest

  pub zscore_newest : (s : ℕ) (m : M) (z : Entries) → zscore m ((s, m) ∷ z) ≡ some s
  unfolding zscore
  zscore_newest s m z = ground arith

  pub zscore_older : (s : ℕ) (m n : M) (z : Entries) → m ≢ n → zscore n ((s, m) ∷ z) ≡ zscore n z
  unfolding zscore
  zscore_older s m n z h = ground arith

  pub zscore-zrem_self : (m : M) (z : Entries) → zscore m (zrem m z) ≡ none
  unfolding zscore zrem
  zscore-zrem_self m [] = refl
  zscore-zrem_self m ((s, n) ∷ z) = ground (arith, zscore-zrem_self m z)

  pub zscore-zrem_ne : (m n : M) (z : Entries) → m ≢ n → zscore n (zrem m z) ≡ zscore n z
  unfolding zscore zrem
  zscore-zrem_ne m n [] h = refl
  zscore-zrem_ne m n ((s, k) ∷ z) h = ground (arith, zscore-zrem_ne m n z h)

  zrem_absent : (m : M) (z : Entries) → zscore m z ≡ none → zrem m z ≡ z
  unfolding zscore zrem
  zrem_absent m [] h = refl
  zrem_absent m ((s, k) ∷ z) h = ground (arith, zrem_absent m z)

  pub zcard-zrem_old : (m : M) (z : Entries) → zscore m z ≢ none → zcard (zrem m z) + 1 ≡ zcard z
  unfolding zscore zrem zcard
  zcard-zrem_old m [] h = absurd (h refl)
  zcard-zrem_old m ((s, k) ∷ z) h =
      ground (
        arith,
        zcard-zrem_old m z,
        zrem_absent m z,
        zscore-zrem_ne m k z,
        Option-cases (zscore m z),
      )

  pub zscore-zremrangebyscore :
      (limit : ℕ) (m : M) (z : Entries)
      → zscore m (zremrangebyscore limit z) ≡ above limit (zscore m z)
  unfolding zscore zremrangebyscore
  zscore-zremrangebyscore limit m [] = refl
  zscore-zremrangebyscore limit m ((s, k) ∷ z) = ground (
    arith,
    zscore-zremrangebyscore limit m z,
    zscore-zrem_self m (zremrangebyscore limit z),
    zscore-zrem_ne k m (zremrangebyscore limit z),
  )

  pub zcard_mono :
      (y z : Entries) → ((m : M) → zscore m y ≢ none → zscore m z ≢ none) → zcard y ≤ zcard z
  unfolding zcard zscore
  zcard_mono [] z h = omega arith
  zcard_mono ((s, m) ∷ y) z h = elim (Option-cases (zscore m y)) [
    | inr (t, old) ↦ rw (old, zcard) (zcard_mono y z (λ n e. h n (ground (arith, e))))
    | inl new ↦
        let there : zscore m z ≢ none = h m (ground arith) in
        let smaller : zcard y ≤ zcard (zrem m z) = zcard_mono y (zrem m z) (in_rest new) in
        rw (new, zcard) (omega (arith, smaller, zcard-zrem_old m z there))
  ]
    where
      in_rest : zscore m y ≡ none → (n : M) → zscore n y ≢ none → zscore n (zrem m z) ≢ none
      in_rest new n e = elim (d m n) [
        | yes same ↦ absurd (e (subst (λ k. zscore k y ≡ none) same new))
        | no other ↦ rw (zscore-zrem_ne m n z other) (h n (rw (if_neg _ other) e))
      ]

  pub Due : ℕ → Entries → M → Type 0
  Due limit z m = (s : ℕ) × (zscore m z ≡ some s) × (s ≤ limit)

  All-without :
      (P Q : M → Type 0) (m : M) (l : List M)
      → ((n : M) → m ≢ n → P n → Q n)
      → All P l
      → All Q (without m l)
  unfolding without
  All-without P Q m [] f h = tt
  All-without P Q m (n ∷ l) f h = elim (d n m) [
    | yes e ↦ rw (if_pos _ e) (All-without P Q m l f h.1)
    | no e ↦ rw (if_neg _ e) (f n (λ p. e (sym p)) h.0, All-without P Q m l f h.1)
  ]

  pub due_sound : (limit : ℕ) (z : Entries) → All (Due limit z) (due limit z)
  unfolding due Due zscore
  due_sound limit [] = tt
  due_sound limit ((s, m) ∷ z) =
      let rest =
        All-without (Due limit z) (Due limit ((s, m) ∷ z)) m (due limit z)
          (λ n e p. (p.0, rw (if_neg _ e) p.1, p.2)) (due_sound limit z) in
      elim (Bool-cases (leb s limit)) [
        | inl e ↦ rw e ((s, rw (if_pos _ refl) refl, ground arith), rest)
        | inr e ↦ rw e rest
      ]

  Elem-without : (m n : M) (l : List M) → m ≢ n → Elem n l → Elem n (without m l)
  unfolding without
  Elem-without m n [] e h = h
  Elem-without m n (k ∷ l) e h = ground (arith, Elem-without m n l e, d k m, d k n)

  due_complete :
      (limit : ℕ) (m : M) (z : Entries) {s : ℕ}
      → zscore m z ≡ some s
      → s ≤ limit
      → Elem m (due limit z)
  unfolding due zscore
  due_complete limit m [] e h = absurd (cc)
  due_complete limit m ((t, k) ∷ z) {s} e h =
      ground (arith, due_complete limit m z {s = s}, Elem-without k m (due limit z), d k m)

  take_all : (n : ℕ) (l : List M) → length (take n l) < n → take n l ≡ l
  take_all zero l h = absurd (omega arith)
  take_all (suc n) [] h = refl
  take_all (suc n) (x ∷ l) h = ground (arith, take_all n l)

  pub All-take : (P : M → Type 0) (n : ℕ) (l : List M) → All P l → All P (take n l)
  All-take P zero l h = tt
  All-take P (suc n) [] h = tt
  All-take P (suc n) (x ∷ l) h = (h.0, All-take P n l h.1)

  pub length-take_le : (n : ℕ) (l : List M) → length (take n l) ≤ n
  length-take_le zero l = omega arith
  length-take_le (suc n) [] = omega arith
  length-take_le (suc n) (x ∷ l) = omega (arith, length-take_le n l)

  pub range_all :
      (limit count : ℕ) (m : M) (z : Entries) {s : ℕ}
      → zscore m z ≡ some s
      → s ≤ limit
      → length (take count (due limit z)) < count
      → Elem m (take count (due limit z))
  range_all limit count m z e h short =
      rw (take_all count (due limit z) short) (due_complete limit m z e h)

  pub zscore-empty : (m : M) → zscore m [] ≡ none
  unfolding zscore
  zscore-empty m = refl

  pub zcard-empty : zcard [] ≡ 0
  unfolding zcard
  zcard-empty = refl

  pub range_due :
      (limit count : ℕ) (z : Entries)
      → All (λ m. (s : ℕ) × (zscore m z ≡ some s) × (s ≤ limit)) (take count (due limit z))
  unfolding Due
  range_due limit count z = All-take (Due limit z) count (due limit z) (due_sound limit z)

  -- The implementation with its laws.
  abbrev pub lists : SortedSets M
  lists = record {
    ZSet = Entries;
    empty = [];
    zadd = λ s m z. (s, m) ∷ z;
    zrem = zrem;
    zremrangebyscore = zremrangebyscore;
    zcard = zcard;
    zrangebyscore = λ limit count z. take count (due limit z);
    zscore = zscore;
    zscore-empty = zscore-empty;
    zscore-zadd_self = zscore_newest;
    zscore-zadd_ne = zscore_older;
    zscore-zrem_self = zscore-zrem_self;
    zscore-zrem_ne = zscore-zrem_ne;
    zscore-zremrangebyscore = zscore-zremrangebyscore;
    zcard-empty = zcard-empty;
    zcard-zadd_new = zcard-zadd_new;
    zcard-zrem_old = zcard-zrem_old;
    zcard_mono = zcard_mono;
    zrangebyscore_due = range_due;
    length-zrangebyscore = λ limit count z. length-take_le count (due limit z);
    zrangebyscore_all = range_all;
  }
