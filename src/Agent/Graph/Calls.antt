-- ===== src/Agent/Graph/Calls.antt =====
-- How often a run calls the model.
use web_hooks.Base.{ℕ, ◌+◌, ◌≤◌}
use web_hooks.Agent.State.{Setting}
use web_hooks.Agent.Loop.{Node, Stage}

module _ (T : Setting) where
  -- The action calls the model at most `n` times.
  abbrev pub Within : {A : Type 0} → ℕ → Node T A → Type 0
  Within n m = (s : Stage T) → (m s).1.asked ≤ s.asked + n
