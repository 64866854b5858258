-- ===== src/Agent/Statistics/Totals.antt =====
-- The statistics add up: of rows that are not empty they are always given, and no row is lost.
use web_hooks.Base.Sequences.{sort_by, nth, filter}
use web_hooks.Base.{
  ℕ, zero, suc, ◌+◌, ◌-◌, ◌*◌, ◌/◌, min, ◌≤◌, ◌<◌, ◌≡◌, refl, Bool, true, Option, none, some, List,
  [], ◌∷◌, map, length, take, length-append, length-take, All, All-append, ltb, ◌==◌, if◌then◌else◌,
  Bool-cases, inl, inr, arith, sym,
}
use web_hooks.Db.{DeliveryAttempt}
use web_hooks.RetryQueue.{Text}
use web_hooks.Sender.{ErrorClass}
use package.web_hooks.Agent.Statistics.{
  snippet_samples, bump, count_by, sample_of, add_sample, collect_samples, sum, Latency, latency_of,
  Statistics, statistics, summary, is_some, has_failed, same_class, same_option, status_key,
}
use web_hooks.Base.Sequences.Sorted.{
  IsSorted, sort_by-IsSorted, length-sort_by, nth_monotone, nth-some, last?-nth, All-sort_by_back,
  All-from_nth,
}

-- The sum of the counts of the keys with `p`.
unfoldable pub total_where : {A : Type 0} → (A → Bool) → List (A × ℕ) → ℕ
total_where p [] = 0
total_where p ((k, n) ∷ counts) = let rest = total_where p counts in if p k then n + rest else rest

module _ {A : Type 0} (same : A → A → Bool) (p : A → Bool)
    (respects : (j k : A) → same j k ≡ true → p j ≡ p k) where
  total_where-bump :
      (k : A) (counts : List (A × ℕ))
      → total_where p (bump same k counts)
        ≡ (if p k then suc (total_where p counts) else total_where p counts)
  unfolding bump total_where
  total_where-bump k [] = ground arith
  total_where-bump k ((j, n) ∷ counts) = ground (arith, total_where-bump k counts, respects j k)

  -- The counts of the keys with `p` sum up to the number of rows whose key has `p`.
  pub total_where-count_by :
      {R : Type 0} (key : R → A) (rs : List R) (counts : List (A × ℕ))
      → total_where p (count_by same key rs counts)
        ≡ length (filter (λ r. p (key r)) rs) + total_where p counts
  unfolding count_by filter
  total_where-count_by key [] counts = omega arith
  total_where-count_by key (r ∷ rs) counts = ground (
    arith,
    total_where-count_by key rs (bump same (key r) counts),
    total_where-bump (key r) counts,
  )

  -- The same, from no counts.
  pub total_where-from_nothing :
      {R : Type 0} (key : R → A) (rs : List R)
      → total_where p (count_by same key rs []) ≡ length (filter (λ r. p (key r)) rs)
  unfolding total_where
  total_where-from_nothing key rs = omega (arith, total_where-count_by key rs [])

length-filter : {A : Type 0} (p : A → Bool) (bs : List A) → length (filter p bs) ≤ length bs
unfolding filter
length-filter p [] = omega arith
length-filter p (b ∷ bs) = ground (arith, length-filter p bs)

-- At most three samples of at most 200 characters.
abbrev pub AreShort : List Text → Type 0
AreShort samples = (length samples ≤ snippet_samples) × All (λ t. length t ≤ 200) samples

add_sample-AreShort :
    (o : Option Text) (samples : List Text) → AreShort samples → AreShort (add_sample o samples)
unfolding add_sample
add_sample-AreShort none samples h = h
add_sample-AreShort (some t) samples (h, hs) =
    elim (Bool-cases (ltb (length samples) snippet_samples)) [
      | inl e ↦
          rw (e, add_sample)
            (
              ground (arith, e, length-append samples (take 200 t ∷ [])),
              All-append _ samples (take 200 t ∷ []) hs (length-take 200 t, tt),
            )
      | inr e ↦ rw (e, add_sample) (h, hs)
    ]

collect_samples-AreShort :
    (rows : List DeliveryAttempt) (samples : List Text)
    → AreShort samples
    → AreShort (collect_samples rows samples)
unfolding collect_samples
collect_samples-AreShort [] samples h = h
collect_samples-AreShort (a ∷ rows) samples h =
    collect_samples-AreShort rows _ (add_sample-AreShort (sample_of a) samples h)

-- The percentiles of sorted numbers that are not empty.
abbrev pub Ranked : List ℕ → Latency → Type 0
Ranked ordered l =
    (l.p50 ≤ l.p95) × (l.p95 ≤ l.max) × ((i n : ℕ) → nth ordered i ≡ some n → n ≤ l.max)

nth_lt : {A : Type 0} (bs : List A) (i : ℕ) (b : A) → nth bs i ≡ some b → i < length bs
unfolding nth
nth_lt [] i b e = absurd (cc)
nth_lt (c ∷ bs) zero b e = omega arith
nth_lt (c ∷ bs) (suc i) b e = omega (arith, nth_lt bs i b e)

middle_le : (n : ℕ) → suc n / 2 ≤ min (suc n - 1) (suc n * 95 / 100)
middle_le n = omega arith

high_lt : (n : ℕ) → min (suc n - 1) (suc n * 95 / 100) ≤ n
high_lt n = omega arith

latency_of-Ranked :
    (b : ℕ) (bs : List ℕ)
    → IsSorted (λ n. n) (b ∷ bs)
    → (l : Latency) × (latency_of (b ∷ bs) ≡ some l) × Ranked (b ∷ bs) l
unfolding latency_of
latency_of-Ranked b bs s =
    let n = length bs in
    let ordered = b ∷ bs in
    let mid = length ordered / 2 in
    let high = min (length ordered - 1) (length ordered * 95 / 100) in
    let (p50, e50) = nth-some (λ n. n) ordered mid (omega (arith, middle_le n, high_lt n)) in
    let (p95, e95) = nth-some (λ n. n) ordered high (omega (arith, high_lt n)) in
    let (m, em) = nth-some (λ n. n) ordered n (omega arith) in
    let le = nth_monotone (λ n. n) ordered in
    (
      record { p50 = p50; p95 = p95; max = m; mean = (sum ordered, length ordered) },
      rw (e50, e95, last?-nth (λ n. n) b bs, em) refl,
      (
        le mid high p50 p95 s (middle_le n) e50 e95,
        le high n p95 m s (high_lt n) e95 em,
        λ i k e. nth_monotone (λ n. n) ordered i n k m s (omega (arith, nth_lt ordered i k e)) e em,
      ),
    )

same_class_right :
    (c j k : Option ErrorClass)
    → same_option same_class j k ≡ true
    → same_option same_class j c ≡ same_option same_class k c
same_class_right c j k h = ground (arith, h)

same_status_right :
    (c j k : Option ℕ)
    → same_option (λ m n. m == n) j k ≡ true
    → same_option (λ m n. m == n) j c ≡ same_option (λ m n. m == n) k c
same_status_right c j k h = ground (arith, h)

same_class_failed :
    (j k : Option ErrorClass) → same_option same_class j k ≡ true → is_some j ≡ is_some k
same_class_failed j k h = ground (arith, h)

-- What the statistics of the rows say of them.
pub record AddsUp (rows : List DeliveryAttempt) (s : Statistics) : Type 0 where
  pub counted : s.total_attempts ≡ length rows
  pub failures : s.failed_attempts ≤ s.total_attempts
  pub failures_counted : s.failed_attempts ≡ total_where is_some s.counts_by_error_class
  pub classes :
      (c : Option ErrorClass)
      → total_where (λ j. same_option same_class j c) s.counts_by_error_class
        ≡ length (filter (λ a. same_option same_class a.error_class c) rows)
  pub statuses :
      (c : Option ℕ)
      → total_where (λ j. same_option (λ m n. m == n) j c) s.counts_by_http_status
        ≡ length (filter (λ a. same_option (λ m n. m == n) (status_key a) c) rows)
  pub ranked : (s.latency.p50 ≤ s.latency.p95) × (s.latency.p95 ≤ s.latency.max)
  pub greatest : All (λ a. a.latency_ms ≤ s.latency.max) rows
  pub short : AreShort s.sample_response_snippets

All-map :
    {A B : Type 0} (f : A → B) (P : B → Type 0) (as_ : List A)
    → All P (map f as_)
    → All (λ a. P (f a)) as_
All-map f P [] h = tt
All-map f P (a ∷ as_) (p, h) = (p, All-map f P as_ h)

-- Numbers that are not empty, sorted, are not empty.
sorted-Ranked :
    (n : ℕ) (ns : List ℕ)
    → (l : Latency) × (latency_of (sort_by (λ m. m) (n ∷ ns)) ≡ some l)
      × Ranked (sort_by (λ m. m) (n ∷ ns)) l
sorted-Ranked n ns =
    go (sort_by (λ m. m) (n ∷ ns)) (length-sort_by (λ m. m) (n ∷ ns))
      (sort_by-IsSorted (λ m. m) (n ∷ ns))
  where
    go :
        (bs : List ℕ)
        → length bs ≡ suc (length ns)
        → IsSorted (λ m. m) bs
        → (l : Latency) × (latency_of bs ≡ some l) × Ranked bs l
    go [] e h = absurd (omega (arith, e))
    go (b ∷ bs) e h = latency_of-Ranked b bs h

summary-AddsUp :
    (rows : List DeliveryAttempt) (l : Latency)
    → (l.p50 ≤ l.p95) × (l.p95 ≤ l.max)
    → All (λ a. a.latency_ms ≤ l.max) rows
    → AddsUp rows (summary rows l)
unfolding summary
summary-AddsUp rows l ranked greatest = record {
  counted = refl;
  failures = length-filter has_failed rows;
  failures_counted = sym (
      total_where-from_nothing (same_option same_class) is_some same_class_failed
        (λ a. a.error_class) rows);
  classes = λ c.
      total_where-from_nothing (same_option same_class) _ (same_class_right c) (λ a. a.error_class)
        rows;
  statuses = λ c. total_where-from_nothing _ _ (same_status_right c) status_key rows;
  ranked = ranked;
  greatest = greatest;
  short = collect_samples-AreShort rows [] (omega arith, tt);
}

-- The statistics of rows that are not empty are given, no index being out of range. The count of
-- each error class and of each status is the number of the rows with it, the counts of the failures
-- sum up to `failed_attempts`, the percentiles are in order and no latency exceeds the maximum, and
-- there are at most three snippets of at most 200 characters.
pub statistics-AddsUp :
    (row : DeliveryAttempt) (rows : List DeliveryAttempt)
    → (s : Statistics) × (statistics (row ∷ rows) ≡ some s) × AddsUp (row ∷ rows) s
unfolding statistics
statistics-AddsUp row rows =
    let all_ = row ∷ rows in
    let (l, e, (lo, hi, top)) = sorted-Ranked row.latency_ms (map (λ a. a.latency_ms) rows) in
    (
      summary all_ l,
      rw (e, statistics) refl,
      summary-AddsUp all_ l (lo, hi)
          (All-map (λ a. a.latency_ms) (λ n. n ≤ l.max) all_
            (All-sort_by_back (λ m. m) (λ n. n ≤ l.max) (map (λ a. a.latency_ms) all_)
              (All-from_nth (λ m. m) (λ n. n ≤ l.max) _ top))),
    )
