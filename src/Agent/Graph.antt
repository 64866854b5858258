-- ===== src/Agent/Graph.antt =====
-- relay/agent/graph.py: the nodes triage, investigate, hypothesize, verify and report, and a run with
-- the rows that it stores.
pub mod Traversal
pub mod Confined
pub mod Humble
pub mod Checked
pub mod Calls
pub mod Fuel
pub mod Samples
mod Tests
use web_hooks.Base.{ℕ, ◌+◌, Bool, true, false, Option, none, some, List, [], ◌∷◌, ◌++◌}
use web_hooks.Db.{Endpoint, Diagnosis, opened, Confidence, low}
use web_hooks.Services.{World}
use web_hooks.RetryQueue.{Text, Uuid}
use web_hooks.Api.{one_or_raise}
use web_hooks.Worker.Monad.{Result, ok, raised, Action, pure, raise, command, exec, ◌>>=◌, ◌>>◌}
use web_hooks.Agent.Chat.{codes, submit_diagnosis, string, Input, or_empty, Schema}
use web_hooks.Agent.Llm.{estimate_cost}
use web_hooks.Agent.Tools.Schemas.{tool_schemas, probe_endpoint_schema, check_dns_tls_schema}
use web_hooks.Agent.Prompts.{
  triage_system, investigate_system, hypothesize_system, verify_system, report_system, report_tool,
}
use web_hooks.Agent.State.{
  max_investigate_tool_calls, initial_state, tool_uses, text_or, text_column, confidence_column,
  agent_error, not_verified_note, submission_of, AgentState, Evidence, ToolUse, Setting,
}
use web_hooks.Agent.Loop.{
  Node, text_of, update, endpoint_text, context_block, ask, Stage, run_tool_loop,
}

module _ (T : Setting) where
  open T use {services, client, python, provider, outside, endpoint_id, diagnosis_id, triggered_by}
  open python use {strip, str, dumps, round_usd}

  abbrev pub triage_question : AgentState → Text
  triage_question st =
      codes "Endpoint "
      ++ endpoint_text T
      ++ codes " triggered a diagnosis ("
      ++ triggered_by
      ++ codes "). What will you check?"

  unfoldable pub triage_node : Node T (Unit {0})
  unfolding ask update text_of
  triage_node = do
    r ← ask T triage_system triage_question []
    update T (λ st. record st { triage_notes = text_of T r })

  abbrev pub verification_tools : List Schema
  verification_tools = probe_endpoint_schema ∷ check_dns_tls_schema ∷ []

  abbrev pub max_verify_tool_calls : ℕ
  max_verify_tool_calls = 2

  abbrev pub investigate_opening : AgentState → Text
  investigate_opening st = codes "Investigate this endpoint.\n\n" ++ context_block T st

  unfoldable pub investigate_node : Node T (Unit {0})
  unfolding run_tool_loop context_block
  investigate_node =
      run_tool_loop T investigate_system tool_schemas max_investigate_tool_calls investigate_opening
      >> pure tt

  unfoldable pub hypothesize_node : Node T (Unit {0})
  unfolding ask update text_of context_block
  hypothesize_node = do
    r ← ask T hypothesize_system (context_block T) []
    update T (λ st. record st { hypothesis = text_of T r })

  abbrev pub verify_opening : AgentState → Text
  verify_opening st =
      codes "Test this hypothesis against live behavior now.\n\n" ++ context_block T st

  unfoldable pub verify_node : Node T (Unit {0})
  unfolding run_tool_loop context_block update
  verify_node = do
    notes ← run_tool_loop T verify_system verification_tools max_verify_tool_calls verify_opening
    update T (λ st. record st { verification_notes = notes })

  abbrev pub with_note : Input → Option Text → Option Input
  with_note i none = none
  with_note i (some t) = some (record i {
    confidence = some (string (codes "low"));
    summary = some (string (strip (t ++ not_verified_note)));
  })

  -- The submission of a run that was not verified. A summary that is not a text raises.
  unfoldable pub downgraded : Input → Option Input
  downgraded i = with_note i (text_column (text_or i.summary (string [])))

  unfoldable pub reported : Bool → Input → Option Input
  unfolding downgraded
  reported true i = some i
  reported false i = downgraded i

  abbrev pub keep_result : Option Input → Node T (Unit {0})
  keep_result none = raise
  keep_result (some i) = update T (λ st. record st { result = some i })

  -- `dict(None)` raises.
  abbrev pub from_input : Bool → Option Input → Option Input
  from_input verified none = none
  from_input verified (some i) = reported verified i

  abbrev pub report_from : Bool → Option ToolUse → Option Input
  report_from verified none = some agent_error
  report_from verified (some u) = from_input verified u.input

  unfoldable pub report_node : Node T (Unit {0})
  unfolding ask update reported submission_of context_block
  report_node =
      ask T report_system
        (λ st. codes "Write up the diagnosis using submit_diagnosis.\n\n" ++ context_block T st)
        (report_tool ∷ [])
      >>= λ r s. keep_result (report_from s.agent.verified (submission_of (tool_uses r.content))) s

  -- The edges of `build_graph`.
  unfoldable pub graph : Node T (Unit {0})
  unfolding triage_node investigate_node hypothesize_node verify_node report_node
  graph = do triage_node; investigate_node; hypothesize_node; verify_node; report_node

  abbrev pub stub : Diagnosis
  stub = record {
    id = diagnosis_id;
    endpoint_id = endpoint_id;
    triggered_by = triggered_by;
    root_cause = codes "agent_error";
    confidence = low;
    evidence = codes "{}";
    recommendation = [];
    draft_email = [];
    status = opened;
    cost_usd = 0;
  }

  abbrev pub evidence_of : AgentState → Input → Evidence
  evidence_of st result = record {
    tool_calls = st.tool_calls_made;
    verified = st.verified;
    findings = st.evidence;
    triage = st.triage_notes;
    hypothesis = st.hypothesis;
    verification = st.verification_notes;
    summary = result.summary;
  }

  abbrev pub row_from :
      ℕ
      → Option Text
      → Option Confidence
      → Option Text
      → Option Text
      → Option Text
      → Option Diagnosis
  row_from cost (some root_cause) (some confidence) (some recommendation) (some email) (some e) =
      some (record stub {
        root_cause = root_cause;
        confidence = confidence;
        recommendation = recommendation;
        draft_email = email;
        evidence = e;
        cost_usd = cost;
      })
  row_from cost _ _ _ _ _ = none

  -- The row that `_persist_result` writes; none if a column refuses its value.
  unfoldable pub final_row : AgentState → Option Diagnosis
  unfolding confidence_column estimate_cost
  final_row st =
      let result = or_empty st.result in
      row_from (round_usd (estimate_cost provider st.input_tokens st.output_tokens))
        (text_column (text_or result.root_cause (string (codes "agent_error"))))
        (confidence_column (text_or result.confidence (string (codes "low"))))
        (text_column (text_or result.recommendation (string [])))
        (text_column (text_or result.draft_email (string []))) (dumps (evidence_of st result))

  abbrev pub save_diagnosis : Diagnosis → World services → World services
  save_diagnosis g w = record w { diagnoses = services.diagnoses_table.save g w.diagnoses }

  abbrev pub persist_row : Option Diagnosis → Action (World services) (Unit {0})
  persist_row none = raise
  persist_row (some g) = command (save_diagnosis g)

  unfoldable pub persist_result : AgentState → Action (World services) (Unit {0})
  unfolding final_row
  persist_result st = persist_row (final_row st)

  abbrev pub stage_of : client.Session → World services → Stage T
  stage_of session w = record { world = w; session = session; asked = 0; agent = initial_state }

  abbrev pub left_stage : Result (Unit {0}) × Stage T → Result AgentState × World services
  left_stage (ok u, s) = (ok s.agent, s.world)
  left_stage (raised, s) = (raised, s.world)

  -- The graph on the world, from the initial state.
  unfoldable pub invoke : client.Session → Action (World services) AgentState
  unfolding graph
  invoke session w = left_stage (graph (stage_of session w))

  -- The commit of the stub writes it, or raises IntegrityError where its endpoint is not on record.
  abbrev pub insert_if : Option Endpoint → Diagnosis → World services → Bool × World services
  insert_if none g w = (false, w)
  insert_if (some endpoint) g w = (true, save_diagnosis g w)

  unfoldable pub insert_diagnosis : Diagnosis → World services → Bool × World services
  insert_diagnosis g w = insert_if (services.endpoints_table.find g.endpoint_id w.endpoints) g w

  unfoldable pub committed : Bool → Action (World services) (Unit {0})
  committed true = pure tt
  committed false = raise

  -- `run_diagnosis`; `llm` is `client or get_llm()`, none if that raises.
  unfoldable pub run_diagnosis : Option client.Session → Action (World services) AgentState
  unfolding invoke persist_result insert_diagnosis committed
  run_diagnosis llm = do
    inserted ← exec (insert_diagnosis stub)
    committed inserted
    session ← one_or_raise services llm
    st ← invoke session
    persist_result st
    pure st

  abbrev pub diagnosis_or_none : Result AgentState → Option Uuid
  diagnosis_or_none (ok st) = some diagnosis_id
  diagnosis_or_none raised = none

  -- `trigger.diagnose_and_record`: nothing is raised.
  unfoldable pub diagnose_and_record :
      Option client.Session → World services → Option Uuid × World services
  unfolding run_diagnosis
  diagnose_and_record llm w = let (r, w') = run_diagnosis llm w in (diagnosis_or_none r, w')
