-- ===== src/Worker/Supervisor.antt =====
-- relay/delivery/worker.py: `supervise_shards`, which keeps a task for each shard. A task is a
-- number; `asyncio.wait` gives the tasks of a round that are done.
pub mod Covers
mod Tests
use web_hooks.Base.{
  ℕ, zero, suc, ◌+◌, Bool, true, false, Option, none, some, List, [], ◌∷◌, ◌++◌, ◌==◌,
  if◌then◌else◌,
}

-- `tasks`, from tasks to shards, and the number of the next task.
pub record Supervisor : Type 0 where
  pub tasks : List (ℕ × ℕ)
  pub next : ℕ

abbrev pub no_tasks : Supervisor
no_tasks = record { tasks = []; next = 0 }

unfoldable pub spawn : ℕ → Supervisor → Supervisor
spawn shard s = record s { tasks = s.tasks ++ (s.next, shard) ∷ []; next = s.next + 1 }

-- `for shard in range(settings.stream_shards): spawn(shard)`
unfoldable pub spawn_all : ℕ → Supervisor
unfolding spawn
spawn_all zero = no_tasks
spawn_all (suc n) = spawn n (spawn_all n)

-- `tasks.pop(task)`: the shard and the tasks without it, or KeyError.
unfoldable pub pop : ℕ → List (ℕ × ℕ) → Option (ℕ × List (ℕ × ℕ))
pop task [] = none
pop task ((t, shard) ∷ ts) =
    let rest = pop task ts in
    if t == task
    then some (shard, ts)
    else elim rest [ none ↦ none | some (k, us) ↦ some (k, (t, shard) ∷ us) ]

abbrev pub spawn_unless : Bool → ℕ → Supervisor → Supervisor
spawn_unless true shard s = s
spawn_unless false shard s = spawn shard s

-- The loop over the tasks that are done; nothing runs in it that could set `stop`.
unfoldable pub restart : (stop : Bool) → List ℕ → Supervisor → Option Supervisor
unfolding pop spawn
restart stop [] s = some s
restart stop (task ∷ done) s = elim (pop task s.tasks) [
  | none ↦ none
  | some (shard, ts) ↦ restart stop done (spawn_unless stop shard (record s { tasks = ts }))
]

-- What a round waits for.
pub record Round : Type 0 where
  pub done : List ℕ
  pub stop : Bool

abbrev pub tasks_of : List (ℕ × ℕ) → List ℕ
tasks_of [] = []
tasks_of ((t, shard) ∷ ts) = t ∷ tasks_of ts

-- The rounds until `stop` is set; what is left of the tasks is cancelled then.
unfoldable pub supervise : List Round → Supervisor → Option (Supervisor × Option (List ℕ))
unfolding restart
supervise [] s = some (s, none)
supervise (r ∷ rs) s = elim (restart r.stop r.done s) [
  | none ↦ none
  | some t ↦ if r.stop then some (t, some (tasks_of t.tasks)) else supervise rs t
]

unfoldable pub supervise_shards :
    (stream_shards : ℕ) → List Round → Option (Supervisor × Option (List ℕ))
unfolding spawn_all supervise
supervise_shards stream_shards rounds = supervise rounds (spawn_all stream_shards)
