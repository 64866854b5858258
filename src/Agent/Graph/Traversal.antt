-- ===== src/Agent/Graph/Traversal.antt =====
-- A relation that a call of the model, a call of a tool and a change of the notes keep is kept by the
-- whole graph.
use web_hooks.Base.{
  ℕ, zero, suc, ◌+◌, not, ◌&&◌, Option, none, some, List, [], ◌∷◌, ltb, Bool-cases, inl, inr,
}
use web_hooks.RetryQueue.{Text}
use web_hooks.Worker.Monad.Keeps.{
  Preorder, Keeps, Keeps-pure, Keeps-raise, Keeps-bind, Keeps-modify,
}
use web_hooks.Agent.Chat.{Schema, Request, Message, Response, Input}
use web_hooks.Agent.Tools.Schemas.{tool_schemas}
use web_hooks.Agent.Prompts.{investigate_system, verify_system}
use web_hooks.Agent.State.{
  AgentState, Setting, ToolUse, tool_uses, over_budget, max_investigate_tool_calls,
}
use web_hooks.Agent.Loop.{
  Node, Stage, call_model, update, ask, run_tool, run_tools, wrap_up, after_response, round_of,
  tool_loop, run_tool_loop,
}
use package.web_hooks.Agent.Graph.{
  triage_node, investigate_node, hypothesize_node, verify_node, report_node, graph, keep_result,
  investigate_opening, verify_opening, verification_tools, max_verify_tool_calls,
}

-- The changes of the agent's state that the nodes make without a tool.
pub data Noted (st : AgentState) : AgentState → Type 0 where
  triaged : (t : Text) → Noted st (record st { triage_notes = t })
  hypothesized : (t : Text) → Noted st (record st { hypothesis = t })
  checked : (t : Text) → Noted st (record st { verification_notes = t })
  concluded : (i : Input) → Noted st (record st { result = some i })

module _ (T : Setting) (P : Preorder (Stage T))
    (asks : (request : Request) → Keeps P (call_model T request))
    (uses : (u : ToolUse) → Keeps P (run_tool T u))
    (notes : (s : Stage T) (st : AgentState)
      → Noted s.agent st
      → P.Related s (record s { agent = st })) where
  Keeps-ask :
      (system : Text) (opening : AgentState → Text) (tools : List Schema)
      → Keeps P (ask T system opening tools)
  unfolding ask
  Keeps-ask system opening tools s = asks _ s

  Keeps-update :
      (f : AgentState → AgentState) → ((st : AgentState) → Noted st (f st)) → Keeps P (update T f)
  unfolding update
  Keeps-update f h = Keeps-modify P _ (λ s. notes s (f s.agent) (h s.agent))

  Keeps-run_tools : (us : List ToolUse) → Keeps P (run_tools T us)
  unfolding run_tools
  Keeps-run_tools [] = Keeps-pure P _
  Keeps-run_tools (u ∷ us) =
      Keeps-bind P _ _ (uses u)
        (λ item. Keeps-bind P _ _ (Keeps-run_tools us) (λ items. Keeps-pure P _))

  module _ (system : Text) (tool_defs : List Schema) (max_calls : ℕ) where
    Keeps-wrap_up :
        (messages : List Message) → Keeps P (wrap_up T system tool_defs max_calls messages)
    unfolding wrap_up
    Keeps-wrap_up messages = Keeps-bind P _ _ (asks _) (λ r. Keeps-pure P _)

    Keeps-after_response :
        (again : ℕ → List Message → Node T Text) (calls : ℕ) (messages : List Message)
        (r : Response) (us : List ToolUse)
        → ((n : ℕ) (ms : List Message) → Keeps P (again n ms))
        → Keeps P (after_response T system tool_defs max_calls again calls messages r us)
    unfolding after_response
    Keeps-after_response again calls messages r [] h = Keeps-pure P _
    Keeps-after_response again calls messages r (u ∷ us) h =
        Keeps-bind P _ _ (Keeps-run_tools (u ∷ us)) (λ items. h _ _)

    Keeps-round_of :
        (again : ℕ → List Message → Node T Text) (calls : ℕ) (messages : List Message)
        → ((n : ℕ) (ms : List Message) → Keeps P (again n ms))
        → Keeps P (round_of T system tool_defs max_calls again calls messages)
    unfolding round_of
    Keeps-round_of again calls messages h =
        Keeps-bind P _ _ (asks _)
          (λ r. Keeps-after_response again calls messages r (tool_uses r.content) h)

    Keeps-tool_loop :
        (fuel calls : ℕ) (messages : List Message)
        → Keeps P (tool_loop T system tool_defs max_calls fuel calls messages)
    unfolding tool_loop
    Keeps-tool_loop zero calls messages s = Keeps-wrap_up messages s
    Keeps-tool_loop (suc fuel) calls messages s =
        elim (Bool-cases (ltb calls max_calls && not (over_budget T.provider s.agent))) [
          | inl e ↦
              rw (tool_loop, e)
                (Keeps-round_of (tool_loop T system tool_defs max_calls fuel) calls messages
                  (Keeps-tool_loop fuel) s)
          | inr e ↦ rw (tool_loop, e) (Keeps-wrap_up messages s)
        ]

    Keeps-run_tool_loop :
        (opening : AgentState → Text) → Keeps P (run_tool_loop T system tool_defs max_calls opening)
    unfolding run_tool_loop
    Keeps-run_tool_loop opening s = Keeps-tool_loop (max_calls + max_calls) 0 _ s

  Keeps-keep_result : (o : Option Input) → Keeps P (keep_result T o)
  Keeps-keep_result none = Keeps-raise P _
  Keeps-keep_result (some i) = Keeps-update _ (λ st. concluded i)

  Keeps-triage_node : Keeps P (triage_node T)
  unfolding triage_node
  Keeps-triage_node = Keeps-bind P _ _ (Keeps-ask _ _ _) (λ r. Keeps-update _ (λ st. triaged _))

  Keeps-investigate_node : Keeps P (investigate_node T)
  unfolding investigate_node
  Keeps-investigate_node =
      Keeps-bind P _ _
        (Keeps-run_tool_loop investigate_system tool_schemas max_investigate_tool_calls
          (investigate_opening T))
        (λ t. Keeps-pure P _)

  Keeps-hypothesize_node : Keeps P (hypothesize_node T)
  unfolding hypothesize_node
  Keeps-hypothesize_node =
      Keeps-bind P _ _ (Keeps-ask _ _ _) (λ r. Keeps-update _ (λ st. hypothesized _))

  Keeps-verify_node : Keeps P (verify_node T)
  unfolding verify_node
  Keeps-verify_node =
      Keeps-bind P _ _
        (Keeps-run_tool_loop verify_system (verification_tools T) (max_verify_tool_calls T)
          (verify_opening T))
        (λ t. Keeps-update _ (λ st. checked _))

  Keeps-report_node : Keeps P (report_node T)
  unfolding report_node
  Keeps-report_node = Keeps-bind P _ _ (Keeps-ask _ _ _) (λ r s. Keeps-keep_result _ s)

  pub Keeps-graph : Keeps P (graph T)
  unfolding graph
  Keeps-graph = Keeps-bind P _ _ Keeps-triage_node (λ _.
      Keeps-bind P _ _ Keeps-investigate_node (λ _.
        Keeps-bind P _ _ Keeps-hypothesize_node
          (λ _. Keeps-bind P _ _ Keeps-verify_node (λ _. Keeps-report_node))))
