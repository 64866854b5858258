-- ===== src/Worker/Supervisor/Covers.antt =====
-- Each shard has its task.
use web_hooks.Base.{
  ℕ, zero, suc, ◌+◌, ◌≤◌, ◌≡◌, ◌≢◌, refl, Bool, true, false, Option, none, some, List, [], ◌∷◌,
  ◌++◌, ◌==◌, if◌then◌else◌, ltb, arith, subst, ==_iff, Elem, ◌⊎◌, ◌∙◌, inl, inr, Bool-cases, All,
  sym,
}
use package.web_hooks.Worker.Supervisor.{
  Supervisor, spawn, spawn_all, pop, restart, Round, tasks_of, supervise, supervise_shards,
}

-- How many tasks the shard has.
abbrev pub one_if : Bool → ℕ
one_if true = 1
one_if false = 0

abbrev pub count_of : ℕ → List (ℕ × ℕ) → ℕ
count_of k [] = 0
count_of k ((t, shard) ∷ ts) = one_if (shard == k) + count_of k ts

count_of-append :
    (k : ℕ) (ts us : List (ℕ × ℕ)) → count_of k (ts ++ us) ≡ count_of k ts + count_of k us
count_of-append k [] us = omega arith
count_of-append k ((t, shard) ∷ ts) us = omega (arith, count_of-append k ts us)

count_of-spawn :
    (k shard : ℕ) (s : Supervisor)
    → count_of k (spawn shard s).tasks ≡ one_if (shard == k) + count_of k s.tasks
unfolding spawn
count_of-spawn k shard s = omega (arith, count_of-append k s.tasks ((s.next, shard) ∷ []))

count_of-spawn_all : (k n : ℕ) → count_of k (spawn_all n).tasks ≡ one_if (ltb k n)
unfolding spawn_all
count_of-spawn_all k zero = ground arith
count_of-spawn_all k (suc n) =
    ground (arith, count_of-spawn_all k n, count_of-spawn k n (spawn_all n))

not_here :
    (xs : List ℕ) (t task : ℕ) → (t == task) ≡ false → (t ≡ task) ⊎ Elem task xs → Elem task xs
not_here xs t task other (inl h) = absurd (ground (arith, other, h))
not_here xs t task other (inr h) = h

here_or_there :
    (xs : List ℕ) (t' t task : ℕ) → t ≡ task → t' ≢ task → (t ≡ t') ⊎ Elem t' xs → Elem t' xs
here_or_there xs t' t task e ne (inl h) = absurd (ne (sym h ∙ e))
here_or_there xs t' t task e ne (inr h) = h

-- What a pop takes, and what it leaves.
abbrev pub Popped : ℕ → List (ℕ × ℕ) → ℕ → List (ℕ × ℕ) → Type 0
Popped task ts shard us =
    ((k : ℕ) → count_of k ts ≡ one_if (shard == k) + count_of k us)
    × ((t : ℕ) → t ≢ task → Elem t (tasks_of ts) → Elem t (tasks_of us))

pop_lem :
    (task : ℕ) (ts : List (ℕ × ℕ))
    → Elem task (tasks_of ts)
    → (shard : ℕ) × (us : List (ℕ × ℕ)) × (pop task ts ≡ some (shard, us)) × Popped task ts shard us
unfolding pop
pop_lem task [] h = absurd h
pop_lem task ((t, shard) ∷ ts) h = elim (Bool-cases (t == task)) [
  | inl same ↦ (
    shard,
    ts,
    rw same refl,
    ((λ k. refl), λ t' ne e. here_or_there _ t' t task (ground (arith, same)) ne e),
  )
  | inr other ↦
      let (k, us, e, (counts, keeps)) = pop_lem task ts (not_here _ t task other h) in
      (
        k,
        (t, shard) ∷ us,
        rw (other, e) refl,
        ((λ j. omega (arith, counts j)), λ t' ne held. kept ts us t t' task ne keeps held),
      )
]
  where
    kept :
        (ts us : List (ℕ × ℕ)) (t t' task : ℕ)
        → t' ≢ task
        → ((t : ℕ) → t ≢ task → Elem t (tasks_of ts) → Elem t (tasks_of us))
        → (t ≡ t') ⊎ Elem t' (tasks_of ts)
        → (t ≡ t') ⊎ Elem t' (tasks_of us)
    kept ts us t t' task ne keeps (inl e) = inl e
    kept ts us t t' task ne keeps (inr e) = inr (keeps t' ne e)

-- The tasks of a round that are done are tasks of the supervisor, each once.
abbrev pub AreDone : List ℕ → List (ℕ × ℕ) → Type 0
AreDone [] ts = Unit {0}
AreDone (t ∷ done) ts = Elem t (tasks_of ts) × All (λ u. u ≢ t) done × AreDone done ts

AreDone-mono :
    (done : List ℕ) (task : ℕ) (ts us : List (ℕ × ℕ))
    → All (λ u. u ≢ task) done
    → ((t : ℕ) → t ≢ task → Elem t (tasks_of ts) → Elem t (tasks_of us))
    → AreDone done ts
    → AreDone done us
AreDone-mono [] task ts us ne f h = tt
AreDone-mono (t ∷ done) task ts us ne f h =
    (f t ne.0 h.0, h.1, AreDone-mono done task ts us ne.1 f h.2)

tasks_of-append :
    (ts us : List (ℕ × ℕ)) (t : ℕ) → Elem t (tasks_of ts) → Elem t (tasks_of (ts ++ us))
tasks_of-append [] us t h = absurd h
tasks_of-append (x ∷ ts) us t (inl e) = inl e
tasks_of-append (x ∷ ts) us t (inr h) = inr (tasks_of-append ts us t h)

-- A round of tasks that are done raises no KeyError, and each shard has as many tasks after it.
pub restart-Covers :
    (done : List ℕ) (s : Supervisor)
    → AreDone done s.tasks
    → (t : Supervisor) × (restart false done s ≡ some t)
      × ((k : ℕ) → count_of k t.tasks ≡ count_of k s.tasks)
unfolding restart
restart-Covers [] s h = (s, refl, λ k. refl)
restart-Covers (task ∷ done) s h =
    let (shard, us, e, (counts, keeps)) = pop_lem task s.tasks h.0 in
    let s' = spawn shard (record s { tasks = us }) in
    let (t, e', same) = restart-Covers done s' (
      AreDone-mono done task s.tasks s'.tasks h.1
        (λ t' ne held. (unfold spawn in tasks_of-append us _ t' (keeps t' ne held))) h.2) in
    (
      t,
      rw (e, restart) e',
      λ k. omega (arith, same k, counts k, count_of-spawn k shard (record s { tasks = us })),
    )

-- Once `stop` is set, what is done is not started again.
restart_stopping :
    (done : List ℕ) (s : Supervisor)
    → AreDone done s.tasks
    → (t : Supervisor) × (restart true done s ≡ some t)
      × ((k : ℕ) → count_of k t.tasks ≤ count_of k s.tasks)
      × ((u : ℕ) → Elem u (tasks_of s.tasks) → Elem u done ⊎ Elem u (tasks_of t.tasks))
unfolding restart
restart_stopping [] s h = (s, refl, (λ k. omega arith), λ u e. inr e)
restart_stopping (task ∷ done) s h =
    let (shard, us, e, (counts, keeps)) = pop_lem task s.tasks h.0 in
    let s' = record s { tasks = us } in
    let (t, e', fewer, ended) =
      restart_stopping done s' (AreDone-mono done task s.tasks us h.1 keeps h.2) in
    (
      t,
      rw (e, restart) e',
      (λ k. omega (arith, fewer k, counts k)),
      λ u held. accounted u task done us t (keeps u) ended (Bool-cases (task == u)) held,
    )
  where
    accounted :
        (u task : ℕ) (done : List ℕ) (us : List (ℕ × ℕ)) (t : Supervisor)
        → (u ≢ task → Elem u (tasks_of s.tasks) → Elem u (tasks_of us))
        → ((u : ℕ) → Elem u (tasks_of us) → Elem u done ⊎ Elem u (tasks_of t.tasks))
        → ((task == u) ≡ true) ⊎ ((task == u) ≡ false)
        → Elem u (tasks_of s.tasks)
        → ((task ≡ u) ⊎ Elem u done) ⊎ Elem u (tasks_of t.tasks)
    accounted u task done us t keeps ended (inl same) held = inl (inl ((==_iff task u).0 same))
    accounted u task done us t keeps ended (inr other) held =
        elim (ended u (keeps (λ e. absurd (ground (arith, other, e))) held)) [
          | inl e ↦ inl (inr e)
          | inr e ↦ inr e
        ]

-- What `asyncio.wait` may answer in the rounds of a supervisor.
abbrev pub AreRounds : List Round → Supervisor → Type 0
AreRounds [] s = Unit {0}
AreRounds (r ∷ rs) s =
    AreDone r.done s.tasks
    × (elim (restart r.stop r.done s) [ none ↦ Unit {0} | some t ↦ AreRounds rs t ])

-- The tasks at the end, where the supervisor still runs or was stopped.
abbrev pub Covered : ℕ → Option (Supervisor × Option (List ℕ)) → Type 0
Covered n none = ⊥
Covered n (some (s, none)) = (k : ℕ) → count_of k s.tasks ≡ one_if (ltb k n)
Covered n (some (s, some cancelled)) =
    (cancelled ≡ tasks_of s.tasks) × ((k : ℕ) → count_of k s.tasks ≤ one_if (ltb k n))

round_lem :
    (r : Round) (rs : List Round) (s t : Supervisor)
    → restart r.stop r.done s ≡ some t
    → supervise (r ∷ rs) s ≡ (if r.stop then some (t, some (tasks_of t.tasks)) else supervise rs t)
unfolding supervise
round_lem r rs s t e = rw (e, supervise) refl

next_rounds :
    (r : Round) (rs : List Round) (s t : Supervisor)
    → restart r.stop r.done s ≡ some t
    → AreRounds (r ∷ rs) s
    → AreRounds rs t
next_rounds r rs s t e a = subst (λ o. elim o [ none ↦ Unit {0} | some t' ↦ AreRounds rs t' ]) e a.1

supervise-Covered :
    (n : ℕ) (rs : List Round) (s : Supervisor)
    → ((k : ℕ) → count_of k s.tasks ≡ one_if (ltb k n))
    → AreRounds rs s
    → Covered n (supervise rs s)
unfolding supervise
supervise-Covered n [] s h a = h
supervise-Covered n (r ∷ rs) s h a = elim (Bool-cases r.stop) [
  | inl stopped ↦
      let (t, e, fewer, ended) = restart_stopping r.done s a.0 in
      rw (round_lem r rs s t (rw stopped e), stopped) (refl, λ k. omega (arith, fewer k, h k))
  | inr runs ↦
      let (t, e, same) = restart-Covers r.done s a.0 in
      rw (round_lem r rs s t (rw runs e), runs)
        (supervise-Covered n rs t (λ k. omega (arith, same k, h k))
          (next_rounds r rs s t (rw runs e) a))
]

-- Whichever tasks die, and however often, the supervisor raises no KeyError; as long as it runs each
-- shard has exactly one task, and a number past the shards has none. Once `stop` is set, the tasks
-- that are left, at most one for a shard, are cancelled.
pub supervise_shards-Covered :
    (stream_shards : ℕ) (rounds : List Round)
    → AreRounds rounds (spawn_all stream_shards)
    → Covered stream_shards (supervise_shards stream_shards rounds)
unfolding supervise_shards
supervise_shards-Covered stream_shards rounds h =
    supervise-Covered stream_shards rounds _ (λ k. count_of-spawn_all k stream_shards) h
