-- ===== src/RetryQueue/Tests.antt =====
-- The retry queue at concrete inputs: a delivery 1 of the event 2 to the endpoint 3, due at 5000.
use web_hooks.Base.{
  ℕ, zero, suc, take, ◌+◌, ◌<◌, ◌≤◌, ◌≡◌, false, none, some, List, All, [], ◌∷◌, length, arith,
  refl,
}
use web_hooks.Redis.{SortedSets}
use web_hooks.Redis.Concrete.{lists, zscore, zcard, zscore_newest, due, without}
use web_hooks.RetryQueue.{
  Text, Moved, split, entry_of, enqueue_delivery, encode_member, schedule_retry,
  move_due_to_streams,
}
use web_hooks.RetryQueue.Codec.{entry_of-encode_member}
use web_hooks.RetryQueue.Unary.{unary}
use web_hooks.RetryQueue.Moves.{
  Text-discrete, Decodes, Streams, move_due-conserves, schedule_retry-Decodes,
}

abbrev sets : SortedSets Text
sets = lists Text-discrete

abbrev member : Text
member = encode_member unary 8 1 2 3

abbrev waiting : SortedSets.ZSet sets
waiting = (schedule_retry unary sets 8 1 2 3 4000 1000 []).0

nothing-Decodes : Decodes sets []
nothing-Decodes = record { entry = λ t h. absurd (h (unfold zscore in refl)) }

waiting-Decodes : Decodes sets waiting
waiting-Decodes = schedule_retry-Decodes unary sets 8 1 2 3 4000 1000 [] nothing-Decodes

member_waits : zscore Text-discrete member waiting ≡ some 5000
member_waits = unfold schedule_retry in zscore_newest Text-discrete 5000 member []

one_due :
    (m : Text) (limit : ℕ)
    → 2 ≤ limit
    → length (take limit (due Text-discrete 5000 ((5000, m) ∷ []))) < limit
unfolding due without
one_due m zero h = absurd (omega arith)
one_due m (suc zero) h = absurd (omega arith)
one_due m (suc (suc n)) h = omega arith

range_short :
    (limit : ℕ) → 2 ≤ limit → length (SortedSets.zrangebyscore sets 5000 limit waiting) < limit
unfolding schedule_retry
range_short limit h = one_due member limit h

abbrev script : Moved sets
script = move_due_to_streams sets 100 5000 waiting

move_due-conserves_example :
    (script.failed ≡ false)
    × (length script.added ≡ script.moved)
    × (zcard Text-discrete script.retries + script.moved ≡ zcard Text-discrete waiting)
    × Decodes sets script.retries
    × (taken : List Text) × Streams sets taken script.added
    × All
        (λ t. (due_at : ℕ) × (zscore Text-discrete t waiting ≡ some due_at) × (due_at ≤ 5000))
        taken
    × All (λ t. zscore Text-discrete t script.retries ≡ none) taken
move_due-conserves_example = move_due-conserves sets 100 5000 waiting waiting-Decodes

entry_of-encode_member_example :
    entry_of (split (encode_member unary 8 1 2 3)) ≡ some (enqueue_delivery unary 8 1 2 3)
entry_of-encode_member_example = entry_of-encode_member unary 8 1 2 3
