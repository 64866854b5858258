-- ===== src/Scheduler/Gauges/Sets.antt =====
-- What setting gauges in a row leaves of each label.
use web_hooks.Base.{
  ℕ, zero, suc, ◌+◌, ◌≡◌, refl, ap, ◌∙◌, Bool, true, false, Option, none, some, List, [], ◌∷◌, ◌==◌,
  if◌then◌else◌, arith, inl, inr, Bool-cases, ==_iff,
}
use web_hooks.Services.{update}
use web_hooks.RetryQueue.{Uuid}
use web_hooks.Breaker.{State, closed, half_open, opened}
use web_hooks.Api.{contains}
use package.web_hooks.Scheduler.Gauges.{
  Gauges, breaker_state_value, tally, group_count, set_sizes, set_breaker,
}

abbrev pub or_zero : Option ℕ → ℕ
or_zero none = 0
or_zero (some n) = n

abbrev pub or_else : Option ℕ → Option ℕ → Option ℕ
or_else none old = old
or_else (some n) old = some n

-- The last row of a key.
abbrev pub last_of : Uuid → List (Uuid × ℕ) → Option ℕ
last_of t [] = none
last_of t ((k, n) ∷ rows) = or_else (last_of t rows) (if k == t then some n else none)

-- No key has two rows.
abbrev pub IsGrouped : List (Uuid × ℕ) → Type 0
IsGrouped [] = Unit {0}
IsGrouped ((k, n) ∷ rows) = (last_of k rows ≡ none) × IsGrouped rows

-- How often a key occurs, if it does.
abbrev pub count_of : Uuid → List Uuid → ℕ
count_of t [] = 0
count_of t (k ∷ ks) = if k == t then suc (count_of t ks) else count_of t ks

abbrev pub counted : ℕ → Option ℕ
counted zero = none
counted (suc n) = some (suc n)

last_of-tally :
    (t k : Uuid) (rows : List (Uuid × ℕ))
    → IsGrouped rows
    → last_of t (tally k rows)
      ≡ (if k == t then some (or_zero (last_of t rows) + 1) else last_of t rows)
unfolding tally
last_of-tally t k [] h = ground arith
last_of-tally t k ((j, n) ∷ rows) h = ground (arith, h, last_of-tally t k rows h.1)

tally-IsGrouped : (k : Uuid) (rows : List (Uuid × ℕ)) → IsGrouped rows → IsGrouped (tally k rows)
unfolding tally
tally-IsGrouped k [] h = (refl, tt)
tally-IsGrouped k ((j, n) ∷ rows) h = elim (Bool-cases (j == k)) [
  | inl same ↦ rw same h
  | inr other ↦
      rw other (ground (arith, other, h.0, last_of-tally j k rows h.1), tally-IsGrouped k rows h.1)
]

group_count-IsGrouped : (ks : List Uuid) → IsGrouped (group_count ks)
unfolding group_count
group_count-IsGrouped [] = tt
group_count-IsGrouped (k ∷ ks) = tally-IsGrouped k (group_count ks) (group_count-IsGrouped ks)

or_zero-counted : (n : ℕ) → or_zero (counted n) ≡ n
or_zero-counted zero = refl
or_zero-counted (suc n) = refl

pub last_of-group_count :
    (t : Uuid) (ks : List Uuid) → last_of t (group_count ks) ≡ counted (count_of t ks)
unfolding group_count
last_of-group_count t [] = refl
last_of-group_count t (k ∷ ks) =
    last_of-tally t k (group_count ks) (group_count-IsGrouped ks)
    ∙ rw (last_of-group_count t ks) (ground (arith, or_zero-counted (count_of t ks)))

later_wins :
    (n : ℕ) (o old : Option ℕ) (b : Bool)
    → or_else o (if b then some n else old) ≡ or_else (or_else o (if b then some n else none)) old
later_wins n none old true = refl
later_wins n none old false = refl
later_wins n (some m) old b = refl

pub set_sizes_lem :
    (rows : List (Uuid × ℕ)) (g : Gauges) (t : Uuid)
    → ((set_sizes rows g).dlq_size t ≡ or_else (last_of t rows) (g.dlq_size t))
unfolding set_sizes
set_sizes_lem [] g t = refl
set_sizes_lem ((k, n) ∷ rows) g t =
    set_sizes_lem rows (record g { dlq_size = update g.dlq_size k (some n) }) t
    ∙ later_wins n (last_of t rows) (g.dlq_size t) (k == t)

pub set_sizes_others :
    (rows : List (Uuid × ℕ)) (g : Gauges)
    → ((set_sizes rows g).retry_queue_depth ≡ g.retry_queue_depth)
      × ((set_sizes rows g).breaker_state ≡ g.breaker_state)
unfolding set_sizes
set_sizes_others [] g = (refl, refl)
set_sizes_others ((k, n) ∷ rows) g =
    set_sizes_others rows (record g { dlq_size = update g.dlq_size k (some n) })

-- What a gauge of a breaker shows after a sweep: nothing new for a closed one.
abbrev pub exported : State → Option ℕ → Option ℕ
exported closed old = old
exported half_open old = some (breaker_state_value half_open)
exported opened old = some (breaker_state_value opened)

abbrev pub set_breakers : (Uuid → State) → List Uuid → Gauges → Gauges
set_breakers state [] g = g
set_breakers state (k ∷ ks) g = set_breakers state ks (set_breaker k (state k) g)

set_breaker_lem :
    (j k : Uuid) (s : State) (g : Gauges)
    → ((set_breaker k s g).breaker_state j
        ≡ (if k == j then exported s (g.breaker_state j) else g.breaker_state j))
      × ((set_breaker k s g).dlq_size ≡ g.dlq_size)
      × ((set_breaker k s g).retry_queue_depth ≡ g.retry_queue_depth)
unfolding set_breaker
set_breaker_lem j k closed g = (ground arith, refl, refl)
set_breaker_lem j k half_open g = (refl, refl, refl)
set_breaker_lem j k opened g = (refl, refl, refl)

exported_twice : (s : State) (o : Option ℕ) → exported s (exported s o) ≡ exported s o
exported_twice closed o = refl
exported_twice half_open o = refl
exported_twice opened o = refl

set_again :
    (b c : Bool) (s t : State) (o : Option ℕ)
    → (b ≡ true → s ≡ t)
    → (if c then exported t (if b then exported s o else o) else (if b then exported s o else o))
      ≡ (if (if b then true else c) then exported t o else o)
set_again true true s t o e = rw (e refl) (exported_twice t o)
set_again true false s t o e = rw (e refl) refl
set_again false c s t o e = refl

pub set_breakers_lem :
    (state : Uuid → State) (ks : List Uuid) (g : Gauges) (j : Uuid)
    → ((set_breakers state ks g).breaker_state j
        ≡ (if contains ks j then exported (state j) (g.breaker_state j) else g.breaker_state j))
      × ((set_breakers state ks g).dlq_size ≡ g.dlq_size)
      × ((set_breakers state ks g).retry_queue_depth ≡ g.retry_queue_depth)
unfolding contains
set_breakers_lem state [] g j = (refl, refl, refl)
set_breakers_lem state (k ∷ ks) g j =
    let (b, d, r) = set_breakers_lem state ks (set_breaker k (state k) g) j in
    let (b', d', r') = set_breaker_lem j k (state k) g in
    (
      b
          ∙ rw b' (
              set_again (k == j) (contains ks j) (state k) (state j) (g.breaker_state j)
                (λ e. ap state ((==_iff k j).0 e))),
      d ∙ d',
      r ∙ r',
    )
