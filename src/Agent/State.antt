-- ===== src/Agent/State.antt =====
-- relay/agent/graph.py: the state of a run, and what is computed from it alone. Costs are in units of
-- 10⁻⁷ dollars.
use web_hooks.Base.{ℕ, Bool, false, Option, none, some, List, [], ◌∷◌, ◌++◌, leb, if◌then◌else◌}
use web_hooks.Db.{Confidence, low, medium, high}
use web_hooks.Services.{Services}
use web_hooks.RetryQueue.{Text, Uuid}
use web_hooks.Agent.Chat.{
  codes, same_text, Tool, query_attempts, get_endpoint_config, probe_endpoint, check_dns_tls,
  pause_endpoint, replay_dlq, submit_diagnosis, unlisted, Value, string, integer, Input, Block,
  text, tool_use, Client,
}
use web_hooks.Agent.Llm.{Provider, estimate_cost}
use web_hooks.Agent.Findings.{Outside, Finding}

abbrev pub max_investigate_tool_calls : ℕ
max_investigate_tool_calls = 6

-- `MAX_COST_USD_PER_RUN`
abbrev pub max_cost_per_run : ℕ
max_cost_per_run = 5000000

-- The fields of `AgentState` that the nodes change.
pub record AgentState : Type 0 where
  pub triage_notes : Text
  pub hypothesis : Text
  pub verification_notes : Text
  pub evidence : List (Tool × Finding)
  pub tool_calls_made : List Tool
  pub verified : Bool
  pub result : Option Input
  pub input_tokens : ℕ
  pub output_tokens : ℕ

abbrev pub initial_state : AgentState
initial_state = record {
  triage_notes = [];
  hypothesis = [];
  verification_notes = [];
  evidence = [];
  tool_calls_made = [];
  verified = false;
  result = none;
  input_tokens = 0;
  output_tokens = 0;
}

-- What `_persist_result` stores as the evidence.
pub record Evidence : Type 0 where
  pub tool_calls : List Tool
  pub verified : Bool
  pub findings : List (Tool × Finding)
  pub triage : Text
  pub hypothesis : Text
  pub verification : Text
  pub summary : Option Value

-- What the code uses of Python: `strip`, `str` of a finding, the JSON text of the evidence, which the
-- column may refuse, and `round` of a cost to millionths.
pub record Python : Type 0 where
  pub strip : Text → Text
  pub str : Finding → Text
  pub dumps : Evidence → Option Text
  pub round_usd : ℕ → ℕ

abbrev pub tool_name : Tool → Text
tool_name query_attempts = codes "query_attempts"
tool_name get_endpoint_config = codes "get_endpoint_config"
tool_name probe_endpoint = codes "probe_endpoint"
tool_name check_dns_tls = codes "check_dns_tls"
tool_name pause_endpoint = codes "pause_endpoint"
tool_name replay_dlq = codes "replay_dlq"
tool_name submit_diagnosis = codes "submit_diagnosis"
tool_name (unlisted t) = t

abbrev pub same_tool : Tool → Tool → Bool
same_tool a b = same_text (tool_name a) (tool_name b)

-- `state.evidence[name] = finding`
unfoldable pub set_evidence : Tool → Finding → List (Tool × Finding) → List (Tool × Finding)
set_evidence name f [] = (name, f) ∷ []
set_evidence name f ((n, g) ∷ rest) =
    let others = set_evidence name f rest in
    if same_tool n name then (n, f) ∷ rest else (n, g) ∷ others

pub record ToolUse : Type 0 where
  pub id : Text
  pub name : Tool
  pub input : Option Input

abbrev pub tool_uses : List Block → List ToolUse
tool_uses [] = []
tool_uses (text t ∷ bs) = tool_uses bs
tool_uses (tool_use id name input ∷ bs) =
    record { id = id; name = name; input = input } ∷ tool_uses bs

-- `if text: lines.append(…)`
abbrev pub section : Text → Text → List Text
section heading [] = []
section heading (c ∷ t) = (heading ++ c ∷ t) ∷ []

unfoldable pub over_budget : Provider → AgentState → Bool
unfolding estimate_cost
over_budget provider st =
    leb max_cost_per_run (estimate_cost provider st.input_tokens st.output_tokens)

abbrev pub text_or : Option Value → Value → Value
text_or none default = default
text_or (some v) default = v

-- A column of texts takes a text only.
abbrev pub text_column : Value → Option Text
text_column (string t) = some t
text_column (integer n) = none
text_column (Value.other t) = none

-- The check `confidence IN ('low','medium','high')`.
unfoldable pub confidence_column : Value → Option Confidence
confidence_column (string t) =
    if same_text t (codes "low")
    then some low
    else if same_text t (codes "medium")
    then some medium
    else if same_text t (codes "high")
    then some high
    else none
confidence_column (integer n) = none
confidence_column (Value.other t) = none

abbrev pub agent_error : Input
agent_error = record {
  window_minutes = none;
  reason = none;
  root_cause = some (string (codes "agent_error"));
  confidence = some (string (codes "low"));
  summary = some (string (codes "The agent did not produce a structured diagnosis."));
  recommendation = some (string (codes "Re-run the diagnosis; no conclusion was reached."));
  draft_email = some (string []);
}

abbrev pub not_verified_note : Text
not_verified_note = codes " [Not verified against a live probe.]"

-- The first `submit_diagnosis` of a response.
unfoldable pub submission_of : List ToolUse → Option ToolUse
submission_of [] = none
submission_of (u ∷ us) = if same_tool u.name submit_diagnosis then some u else submission_of us

-- The parameters of a run: the services, the client, Python, and the outside of each tool call.
pub record Setting : Type 1 where
  pub services : Services
  pub client : Client
  pub python : Python
  pub provider : Provider
  pub outside : ℕ → Outside
  pub endpoint_id : Uuid
  pub diagnosis_id : Uuid
  pub triggered_by : Text
