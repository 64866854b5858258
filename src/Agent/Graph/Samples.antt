-- ===== src/Agent/Graph/Samples.antt =====
-- A setting of runs at concrete inputs: the model looks at the configuration, never probes, and claims
-- to be sure.
use web_hooks.Base.{ℕ, zero, suc, none, some, List, [], ◌∷◌}
use web_hooks.Db.{Endpoint, ordered, active}
use web_hooks.Services.{World}
use web_hooks.Services.Concrete.{by_lists, world}
use web_hooks.Sender.{responded}
use web_hooks.Worker.Monad.{ok}
use web_hooks.Agent.Chat.{
  codes, get_endpoint_config, submit_diagnosis, Input, string, Block, text, tool_use, Response,
  Client,
}
use web_hooks.Agent.Llm.{gemini}
use web_hooks.Agent.Findings.{Outside, gaierror, handshake_failed}
use web_hooks.Agent.State.{Setting, Python}

abbrev pub endpoint : Endpoint
endpoint = record {
  id = 3;
  tenant_id = 4;
  url = [];
  signing_secret = [];
  ordering = ordered;
  status = active;
  event_types = [];
}

abbrev pub claim : Input
claim = record {
  window_minutes = none;
  reason = none;
  root_cause = some (string (codes "endpoint_down"));
  confidence = some (string (codes "high"));
  summary = some (string []);
  recommendation = some (string []);
  draft_email = some (string []);
}

abbrev pub says : Block → Response
says b = record { content = b ∷ []; usage = record { input_tokens = 100; output_tokens = 10 } }

abbrev pub pick : List Response → ℕ → Response
pick [] n = says (tool_use (codes "c2") submit_diagnosis (some claim))
pick (r ∷ rs) zero = r
pick (r ∷ rs) (suc n) = pick rs n

-- The answers of the model, in order; after them it submits its claim.
abbrev pub answer : ℕ → Response
answer = pick (
    says (text (codes "I will look."))
    ∷ says (tool_use (codes "c1") get_endpoint_config none)
    ∷ says (text (codes "It is down."))
    ∷ says (text (codes "It is down."))
    ∷ says (text (codes "I am sure."))
    ∷ [])

abbrev pub fake : Client
fake = record { Session = ℕ; create = λ r n. (ok (answer n), suc n) }

abbrev pub python : Python
python = record { strip = λ t. t; str = λ f. []; dumps = λ e. some []; round_usd = λ n. n }

abbrev pub outside : Outside
outside = record {
  now = 0;
  Header = ℕ;
  client = λ post. responded (record { status_code = 503; body = []; retry_after_header = none });
  latency = 5;
  delivery_id = 90;
  event_id = 91;
  action_id = 92;
  probe_payload = λ now. [];
  int = λ v. none;
  urlparse = λ t. none;
  getaddrinfo = λ host port. gaierror [];
  handshake = λ host port. handshake_failed [];
}

abbrev pub setting : Setting
setting = record {
  services = by_lists;
  client = fake;
  python = python;
  provider = gemini;
  outside = λ n. outside;
  endpoint_id = 3;
  diagnosis_id = 7;
  triggered_by = codes "breaker_open";
}

abbrev pub begin : World by_lists
begin = world [] (endpoint ∷ []) [] [] []
