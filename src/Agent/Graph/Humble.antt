-- ===== src/Agent/Graph/Humble.antt =====
-- A run grades its own rigour: without a verification tool, the result at the end of the graph
-- claims the low confidence.
use web_hooks.Base.{
  ◌≡◌, refl, Bool, true, false, ◌||◌, Option, none, some, List, [], ◌∷◌, ◌++◌, arith, subst,
}
use web_hooks.RetryQueue.{Text}
use web_hooks.Worker.Monad.{
  Result, ok, raised, ◌>>=◌, Returns, Returns-bind, Returns-raise, Returns-modify,
}
use web_hooks.Worker.Monad.Keeps.{Preorder, Keeps}
use web_hooks.Agent.Chat.{codes, Tool, Request, Response, Input, string}
use web_hooks.Agent.Tools.Schemas.{is_verification}
use web_hooks.Agent.State.{
  AgentState, Setting, ToolUse, tool_uses, submission_of, agent_error, not_verified_note,
}
use web_hooks.Agent.Loop.{Stage, Node, charge, call_model, run_tool, update}
use package.web_hooks.Agent.Graph.{
  graph, triage_node, investigate_node, hypothesize_node, verify_node, report_node, keep_result,
  report_from, reported, downgraded, from_input, with_note,
}
use package.web_hooks.Agent.Graph.Traversal.{
  Keeps-graph, Noted, triaged, hypothesized, checked, concluded,
}

abbrev pub any_verification : List Tool → Bool
any_verification [] = false
any_verification (t ∷ ts) = is_verification t || any_verification ts

any_verification-append :
    (ts : List Tool) (t : Tool)
    → any_verification (ts ++ t ∷ []) ≡ (any_verification ts || is_verification t)
any_verification-append [] t = ground arith
any_verification-append (u ∷ ts) t = ground (arith, any_verification-append ts t)

-- `verified` says whether a verification tool was called.
abbrev pub IsMarked : AgentState → Type 0
IsMarked st = st.verified ≡ any_verification st.tool_calls_made

-- A result of a run without a verification tool claims the low confidence.
abbrev pub IsHumble : AgentState → Type 0
IsHumble st =
    st.verified ≡ false
    → (i : Input) × (st.result ≡ some i) × (i.confidence ≡ some (string (codes "low")))

module _ (T : Setting) where
  open T use {services, client, diagnosis_id}

  abbrev marked : Preorder (Stage T)
  marked = record {
    Related = λ s t. IsMarked s.agent → IsMarked t.agent;
    itself = λ s h. h;
    then_ = λ s t u f g h. g (f h);
  }

  charge-IsMarked :
      (r : Result Response) (s : Stage T) → IsMarked s.agent → IsMarked (charge T r s).1.agent
  charge-IsMarked (ok r) s h = h
  charge-IsMarked raised s h = h

  call_model-marked : (request : Request) → Keeps marked (call_model T request)
  unfolding call_model
  call_model-marked request s h = charge-IsMarked (client.create request s.session).0 _ h

  run_tool-marked : (u : ToolUse) → Keeps marked (run_tool T u)
  unfolding run_tool
  run_tool-marked u s h = rw (any_verification-append s.agent.tool_calls_made u.name, h) refl

  noted-IsMarked : (st st' : AgentState) → Noted st st' → IsMarked st → IsMarked st'
  noted-IsMarked st _ (triaged t) h = h
  noted-IsMarked st _ (hypothesized t) h = h
  noted-IsMarked st _ (checked t) h = h
  noted-IsMarked st _ (concluded i) h = h

  -- Through the whole graph, `verified` stays the answer to whether a verification tool was called.
  pub graph-IsMarked : (s : Stage T) → IsMarked s.agent → IsMarked (graph T s).1.agent
  graph-IsMarked s =
      Keeps-graph T marked call_model-marked run_tool-marked (λ s st n. noted-IsMarked s.agent st n)
        s

  -- What every run of the second action makes true is true of both.
  Returns-last :
      {A B : Type 0} (P : B → Stage T → Type 0) (m : Node T A) (f : A → Node T B)
      → ((a : A) (s : Stage T) → Returns P (λ _. Unit {0}) (f a s))
      → (s : Stage T) → Returns P (λ _. Unit {0}) ((m >>= f) s)
  Returns-last {A = A} {B = B} P m f h s = Returns-bind P (λ _. Unit {0}) m f s (go (m s))
    where
      go :
          (r : Result A × Stage T)
          → Returns (λ a t. Returns P (λ _. Unit {0}) (f a t)) (λ _. Unit {0}) r
      go (ok a, t) = h a t
      go (raised, t) = tt

  with_note-low :
      (j : Input) (o : Option Text) (i : Input)
      → with_note T j o ≡ some i
      → i.confidence ≡ some (string (codes "low"))
  with_note-low j none i e = absurd (cc)
  with_note-low j (some t) i e =
      let same : head j t ≡ i = cc in
      subst (λ x. x.confidence ≡ some (string (codes "low"))) same refl
    where
      head : Input → Text → Input
      head j t = record j {
        confidence = some (string (codes "low"));
        summary = some (string (T.python.strip (t ++ not_verified_note)));
      }

  from_input-low :
      (o : Option Input) (i : Input)
      → from_input T false o ≡ some i
      → i.confidence ≡ some (string (codes "low"))
  unfolding reported downgraded
  from_input-low none i e = absurd (cc)
  from_input-low (some j) i e = with_note-low j _ i e

  report_from-low :
      (o : Option ToolUse) (i : Input)
      → report_from T false o ≡ some i
      → i.confidence ≡ some (string (codes "low"))
  unfolding reported downgraded
  report_from-low none i e =
      let same : agent_error ≡ i = cc in
      subst (λ x. x.confidence ≡ some (string (codes "low"))) same refl
  report_from-low (some u) i e = from_input-low u.input i e

  keep_result-IsHumble :
      (o : Option Input) (s : Stage T)
      → ((i : Input)
          → o ≡ some i
          → s.agent.verified ≡ false
          → i.confidence ≡ some (string (codes "low")))
      → Returns (λ _ t. IsHumble t.agent) (λ _. Unit {0}) (keep_result T o s)
  unfolding update
  keep_result-IsHumble none s h = Returns-raise _ _ s tt
  keep_result-IsHumble (some i) s h = Returns-modify _ _ _ s (λ v. (i, refl, h i refl v))

  report-IsHumble :
      (v : Bool) (o : Option ToolUse) (s : Stage T)
      → s.agent.verified ≡ v
      → Returns (λ _ t. IsHumble t.agent) (λ _. Unit {0}) (keep_result T (report_from T v o) s)
  report-IsHumble true o s e = keep_result-IsHumble _ s (λ i _ v. absurd (cc))
  report-IsHumble false o s e = keep_result-IsHumble _ s (λ i eq v. report_from-low o i eq)

  pub graph-IsHumble : (s : Stage T) → Returns (λ _ t. IsHumble t.agent) (λ _. Unit {0}) (graph T s)
  unfolding graph report_node
  graph-IsHumble = Returns-last _ (triage_node T) _ (λ _.
      Returns-last _ (investigate_node T) _ (λ _. Returns-last _ (hypothesize_node T) _ (λ _.
        Returns-last _ (verify_node T) _ (λ _.
          Returns-last _ _ _ (λ r s.
            report-IsHumble s.agent.verified (submission_of (tool_uses r.content)) s refl)))))
