-- ===== src/Agent/Llm/Tests.antt =====
-- The adapter at concrete inputs: a model that is busy once, and then calls a tool.
use web_hooks.Base.{ℕ, zero, suc, ◌≡◌, refl, none, some, List, [], ◌∷◌}
use web_hooks.RetryQueue.{Text}
use web_hooks.Agent.Chat.{codes, probe_endpoint, Schema, Request, user}
use web_hooks.Agent.LangChain.{
  Outcome, replied, failed, AiMessage, LcMessage, whole, to_lc_messages,
}
use package.web_hooks.Agent.Llm.{Adapter, create, retry_base_delay}
use package.web_hooks.Agent.Llm.Retries.{Retried, create-Retried}
use package.web_hooks.Agent.Llm.Replay.{Replays, create-Replays}

abbrev message : AiMessage
message = record {
  content = whole (codes "Probing.");
  tool_calls = record { name = probe_endpoint; args = none; id = some (codes "c1") } ∷ [];
  usage = none;
  provider_state = codes "signature";
}

abbrev busy_once : ℕ → List LcMessage → List Schema → Outcome
busy_once zero messages tools =
    failed (record { type_name = codes "ClientError"; message = codes "429 quota" })
busy_once (suc n) messages tools = replied message

abbrev lower : Text → Text
lower t = t

abbrev fresh : ℕ → ℕ → Text
fresh i j = codes "call_"

abbrev request : Request
request = record { system = codes "s"; messages = user (codes "Go.") ∷ []; tools = [] }

abbrev adapter : Adapter
adapter = record { cache = []; invoked = 0; slept = [] }

create-Retried_example :
    Retried lower fresh busy_once
      (λ i. busy_once i (to_lc_messages (codes "s") (user (codes "Go.") ∷ []) []) [])
      0
      retry_base_delay
      adapter
      (create lower fresh busy_once request adapter).0
      (create lower fresh busy_once request adapter).1
create-Retried_example = create-Retried lower fresh busy_once request adapter

create-Replays_example :
    Replays lower fresh busy_once
      (to_lc_messages (codes "s") (user (codes "Go.") ∷ []) [])
      []
      (create lower fresh busy_once request adapter).0
      (create lower fresh busy_once request adapter).1
create-Replays_example = create-Replays lower fresh busy_once request adapter

-- The second call answers, after two seconds.
runs : (create lower fresh busy_once request adapter).1.slept ≡ 2000 ∷ []
unfolding create
runs = refl
