-- ===== src/Worker/Supervisor/Tests.antt =====
-- Two shards, of which the first task dies, then the task that replaced it, before the stop.
use web_hooks.Base.{◌≡◌, refl, true, false, some, List, [], ◌∷◌, inl, inr}
use package.web_hooks.Worker.Supervisor.{Round, spawn, spawn_all, restart, supervise_shards}
use package.web_hooks.Worker.Supervisor.Covers.{AreRounds, Covered, supervise_shards-Covered}

abbrev deaths : List Round
deaths =
    record { done = 0 ∷ []; stop = false }
    ∷ record { done = 2 ∷ []; stop = false }
    ∷ record { done = 1 ∷ []; stop = true }
    ∷ []

deaths_run :
    supervise_shards 2 deaths ≡ some (record { tasks = (3, 0) ∷ []; next = 4 }, some (3 ∷ []))
unfolding supervise_shards
deaths_run = refl

deaths-AreRounds : AreRounds deaths (spawn_all 2)
unfolding spawn_all restart spawn
deaths-AreRounds = ((inl refl, tt, tt), ((inr (inl refl), tt, tt), ((inl refl, tt, tt), tt)))

supervise_shards-Covered_example : Covered 2 (supervise_shards 2 deaths)
supervise_shards-Covered_example = supervise_shards-Covered 2 deaths deaths-AreRounds
