-- ===== src/Agent/Loop.antt =====
-- relay/agent/graph.py: a call of the model and the tool loop. An action is on the world, the session of
-- the model's client and the agent's state.
use web_hooks.Base.{
  ℕ, zero, suc, ◌+◌, not, ◌&&◌, ◌||◌, List, [], ◌∷◌, ◌++◌, length, ltb, if◌then◌else◌,
}
use web_hooks.Services.{World}
use web_hooks.RetryQueue.{Text}
use web_hooks.Worker.Monad.{Result, ok, raised, Action, pure, modify, ◌>>=◌}
use web_hooks.Agent.Chat.{
  codes, join, Tool, or_empty, Response, Item, tool_result, Message, user, user_items, assistant,
  Schema, Request,
}
use web_hooks.Agent.LangChain.{texts_of, newline}
use web_hooks.Agent.Findings.{Finding}
use web_hooks.Agent.Tools.{dispatch}
use web_hooks.Agent.Tools.Schemas.{is_verification}
use web_hooks.Agent.State.{
  tool_name, set_evidence, tool_uses, section, over_budget, AgentState, ToolUse, Setting,
}

module _ (T : Setting) where
  open T use {services, client, python, provider, outside, endpoint_id, diagnosis_id, triggered_by}
  open python use {strip, str, dumps, round_usd}

  -- `asked` is the number of calls of the model so far.
  pub record Stage : Type 0 where
    pub world : World services
    pub session : client.Session
    pub asked : ℕ
    pub agent : AgentState

  abbrev pub Node : Type 0 → Type 0
  Node A = Action Stage A

  unfoldable pub text_of : Response → Text
  text_of r = strip (join newline (texts_of r.content))

  abbrev pub charged : Response → AgentState → AgentState
  charged r st = record st {
    input_tokens = st.input_tokens + r.usage.input_tokens;
    output_tokens = st.output_tokens + r.usage.output_tokens;
  }

  abbrev pub charge : Result Response → Stage → Result Response × Stage
  charge (ok r) s = (ok r, record s { agent = charged r s.agent })
  charge raised s = (raised, s)

  unfoldable pub call_model : Request → Node Response
  call_model request s =
      let (r, session) = client.create request s.session in
      charge r (record s { session = session; asked = s.asked + 1 })

  unfoldable pub update : (AgentState → AgentState) → Node (Unit {0})
  update f = modify (λ s. record s { agent = f s.agent })

  abbrev pub evidence_lines : List (Tool × Finding) → List Text
  evidence_lines [] = []
  evidence_lines ((name, f) ∷ rest) =
      (codes "- " ++ tool_name name ++ codes ": " ++ str f) ∷ evidence_lines rest

  abbrev pub evidence_section : List (Tool × Finding) → List Text
  evidence_section [] = []
  evidence_section (e ∷ es) = codes "\nEvidence gathered so far:" ∷ evidence_lines (e ∷ es)

  abbrev pub endpoint_text : Text
  endpoint_text = services.texts.uuid_text endpoint_id

  unfoldable pub context_block : AgentState → Text
  context_block st = join newline (
      (codes "Endpoint: " ++ endpoint_text)
      ∷ (codes "Trigger: " ++ triggered_by)
      ∷ (section (codes "\nTriage notes:\n") st.triage_notes
          ++ evidence_section st.evidence
          ++ section (codes "\nHypothesis:\n") st.hypothesis
          ++ section (codes "\nVerification:\n") st.verification_notes))

  -- One call of the model with a single message, without its effect on the notes.
  unfoldable pub ask : Text → (AgentState → Text) → List Schema → Node Response
  unfolding call_model
  ask system opening tools s =
      call_model (record { system = system; messages = user (opening s.agent) ∷ []; tools = tools })
        s

  -- One call of a tool, with the outside of that call.
  unfoldable pub run_tool : ToolUse → Node Item
  unfolding dispatch set_evidence
  run_tool u s =
      let made = s.agent.tool_calls_made in
      let (f, w) =
        dispatch services (outside (length made)) endpoint_id diagnosis_id u.name (or_empty u.input)
          s.world in
      (
        ok (tool_result u.id (str f)),
        record s {
          world = w;
          agent = record s.agent {
            tool_calls_made = made ++ u.name ∷ [];
            evidence = set_evidence u.name f s.agent.evidence;
            verified = s.agent.verified || is_verification u.name;
          };
        },
      )

  unfoldable pub run_tools : List ToolUse → Node (List Item)
  unfolding run_tool
  run_tools [] = pure []
  run_tools (u ∷ us) = do item ← run_tool u; items ← run_tools us; pure (item ∷ items)

  module _ (system : Text) (tool_defs : List Schema) (max_calls : ℕ) where
    abbrev pub request_with_tools : List Message → Request
    request_with_tools messages = record { system = system; messages = messages; tools = tool_defs }

    -- After the cap or the budget: a summary, without tools.
    unfoldable pub wrap_up : List Message → Node Text
    unfolding call_model text_of
    wrap_up messages = do
      r ← call_model (record {
        system = system;
        messages = messages ++ user (codes "Summarize what you found.") ∷ [];
        tools = [];
      })
      pure (text_of r)

    -- What follows a response; `again` is the next round of the loop.
    unfoldable pub after_response :
        (ℕ → List Message → Node Text) → ℕ → List Message → Response → List ToolUse → Node Text
    unfolding run_tools text_of
    after_response again calls messages r [] = pure (text_of r)
    after_response again calls messages r (u ∷ us) = do
      items ← run_tools (u ∷ us)
      again (calls + length (u ∷ us))
          ((messages ++ assistant r.content ∷ []) ++ user_items items ∷ [])

    unfoldable pub round_of : (ℕ → List Message → Node Text) → ℕ → List Message → Node Text
    unfolding call_model after_response
    round_of again calls messages = do
      r ← call_model (request_with_tools messages)
      after_response again calls messages r (tool_uses r.content)

    -- `_run_tool_loop` from a number of calls on. Each round makes one call at least, so a fuel of
    -- `max_calls` is enough; it is given twice that, so that it is the test that ends the loop.
    unfoldable pub tool_loop : ℕ → ℕ → List Message → Node Text
    unfolding wrap_up round_of over_budget
    tool_loop zero calls messages s = wrap_up messages s
    tool_loop (suc fuel) calls messages s =
        let again = tool_loop fuel in
        if ltb calls max_calls && not (over_budget provider s.agent)
        then round_of again calls messages s
        else wrap_up messages s

    unfoldable pub run_tool_loop : (AgentState → Text) → Node Text
    unfolding tool_loop
    run_tool_loop opening s = tool_loop (max_calls + max_calls) 0 (user (opening s.agent) ∷ []) s
