-- ===== src/Sender/Tests.antt =====
-- An attempt at a concrete answer.
use web_hooks.Base.{ℕ, none, [], ◌∷◌}
use web_hooks.Sender.{Posted, responded}

abbrev answer : Posted ℕ
answer =
    responded (record { status_code = 204; body = b'o' ∷ b'k' ∷ []; retry_after_header = none })
