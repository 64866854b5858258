-- ===== src/Sender/Classes.antt =====
-- relay/delivery/sender.py: which attempts count as delivered, and what is kept of an answer.
use web_hooks.Base.{
  ℕ, ◌≤◌, ◌<◌, ◌≡◌, ◌↔◌, true, Option, none, some, List, arith, length, length-take,
}
use web_hooks.Sender.{
  Posted, responded, raised, succeeded, classify_status, send_delivery, response_snippet_limit,
}

-- How long the stored part of an answer is.
abbrev pub snippet_length : Option (List ℕ) → ℕ
snippet_length none = 0
snippet_length (some s) = length s

-- The POST was answered, with a status from 200 to 299.
abbrev pub AnsweredWell : {Header : Type 0} → Posted Header → Type 0
AnsweredWell (raised e) = ⊥
AnsweredWell (responded r) = (200 ≤ r.status_code) × (r.status_code < 300)

-- An attempt counts as delivered exactly if the POST was answered with a status from 200 to 299; and
-- of an answer or an error at most 1024 characters are kept.
pub send_delivery-succeeded_iff :
    {Header : Type 0} (p : Posted Header) (latency : ℕ)
    → ((succeeded (send_delivery p latency) ≡ true) ↔ AnsweredWell p)
      × (snippet_length (send_delivery p latency).response_snippet ≤ response_snippet_limit)
unfolding succeeded send_delivery classify_status
send_delivery-succeeded_iff (raised e) latency =
    (ground arith, length-take response_snippet_limit e.text)
send_delivery-succeeded_iff (responded r) latency =
    (ground arith, length-take response_snippet_limit r.body)
