-- ===== src/Agent/Graph/Confined.antt =====
-- What a run can change: its own diagnosis, proposals that wait for a human, and POSTs to the endpoint
-- that it diagnoses.
use web_hooks.Base.{
  ℕ, ◌≡◌, refl, Bool, true, false, ◌⊎◌, inl, inr, Option, none, some, List, [], ◌++◌, ◌==◌, All,
  length, All-append, append_nil, append_assoc, ap, sym, ◌∙◌, subst,
}
use web_hooks.Db.{Endpoint, AgentAction, Diagnosis, Confidence}
use web_hooks.Services.{World, Post}
use web_hooks.RetryQueue.{Text, Uuid}
use web_hooks.Api.{one_or_raise}
use web_hooks.Worker.Monad.{Result, ok, raised}
use web_hooks.Worker.Monad.Keeps.{
  Preorder, Keeps, Keeps-pure, Keeps-raise, Keeps-bind, Keeps-command, Keeps-exec,
}
use web_hooks.Agent.Chat.{Request, Response, or_empty}
use web_hooks.Agent.Tools.Harmless.{
  Harmless, Harmless-itself, Harmless-then, Proposed, GoesTo, dispatch-Harmless,
}
use web_hooks.Agent.State.{AgentState, Setting, ToolUse}
use web_hooks.Agent.Loop.{Stage, charge, call_model, run_tool}
use package.web_hooks.Agent.Graph.{
  graph, stage_of, left_stage, invoke, save_diagnosis, insert_if, insert_diagnosis, committed, stub,
  persist_row, persist_result, final_row, row_from, run_diagnosis, diagnose_and_record,
}
use package.web_hooks.Agent.Graph.Traversal.{Keeps-graph}

module _ (T : Setting) where
  open T use {services, client, endpoint_id, diagnosis_id}

  abbrev HarmlessHere : World services → World services → Type 0
  HarmlessHere = Harmless services endpoint_id diagnosis_id

  abbrev stage_harmless : Preorder (Stage T)
  stage_harmless = record {
    Related = λ s t. HarmlessHere s.world t.world;
    itself = λ s. Harmless-itself services endpoint_id diagnosis_id s.world;
    then_ = λ s t u. Harmless-then services endpoint_id diagnosis_id s.world t.world u.world;
  }

  charge-harmless :
      (w : World services) (r : Result Response) (s : Stage T)
      → HarmlessHere w s.world
      → HarmlessHere w (charge T r s).1.world
  charge-harmless w (ok r) s h = h
  charge-harmless w raised s h = h

  call_model-harmless : (request : Request) → Keeps stage_harmless (call_model T request)
  unfolding call_model
  call_model-harmless request s =
      charge-harmless s.world (client.create request s.session).0 _
        (Harmless-itself services endpoint_id diagnosis_id s.world)

  run_tool-harmless : (u : ToolUse) → Keeps stage_harmless (run_tool T u)
  unfolding run_tool
  run_tool-harmless u s =
      dispatch-Harmless services endpoint_id diagnosis_id
        (T.outside (length s.agent.tool_calls_made)) u.name (or_empty u.input) s.world

  -- The graph, whatever the model answers, leaves the world as its tools do.
  pub graph-Harmless : (s : Stage T) → HarmlessHere s.world (graph T s).1.world
  graph-Harmless s =
      Keeps-graph T stage_harmless call_model-harmless run_tool-harmless
        (λ s st n. Harmless-itself services endpoint_id diagnosis_id s.world) s

  pub record Confined (w w' : World services) : Type 0 where
    pub untouched : w' ≡ record w {
      faults = w'.faults;
      posts = w'.posts;
      actions = w'.actions;
      diagnoses = w'.diagnoses;
    }
    pub others :
        (j : Uuid)
        → (diagnosis_id == j) ≡ false
        → services.diagnoses_table.find j w'.diagnoses ≡ services.diagnoses_table.find j w.diagnoses
    pub proposals :
        (j : Uuid)
        → (services.actions_table.find j w'.actions ≡ services.actions_table.find j w.actions)
          ⊎ ((a : AgentAction) × (services.actions_table.find j w'.actions ≡ some a)
              × Proposed services endpoint_id diagnosis_id a)
    pub sent : List Post
    pub posted : w'.posts ≡ w.posts ++ sent
    pub to_endpoint : All (GoesTo services endpoint_id diagnosis_id w) sent

  Confined-then : (w v u : World services) → Confined w v → Confined v u → Confined w u
  Confined-then w v u g h = record {
    untouched =
        h.untouched
        ∙ ap {B = World services}
            (λ x. record x {
              faults = u.faults;
              posts = u.posts;
              actions = u.actions;
              diagnoses = u.diagnoses;
            })
            g.untouched;
    others = λ j e. h.others j e ∙ g.others j e;
    proposals = λ j. elim (h.proposals j) [
      | inl e ↦ elim (g.proposals j) [ inl e' ↦ inl (e ∙ e') | inr (a, e', p) ↦ inr (a, e ∙ e', p) ]
      | inr q ↦ inr q
    ];
    sent = g.sent ++ h.sent;
    posted = h.posted ∙ ap (λ xs. xs ++ h.sent) g.posted ∙ append_assoc w.posts g.sent h.sent;
    to_endpoint = All-append _ g.sent h.sent g.to_endpoint (
        subst
          (λ rows.
            All
              (λ p.
                (e : Endpoint) × (services.endpoints_table.find endpoint_id rows ≡ some e)
                × (p.url ≡ e.url))
              h.sent)
          (ap (λ x. x.endpoints) g.untouched) h.to_endpoint);
  }

  harmless-Confined : (w w' : World services) → HarmlessHere w w' → Confined w w'
  harmless-Confined w w' h = record {
    untouched =
        h.untouched
        ∙ ap {A = services.diagnoses_table.Rows} {B = World services}
            (λ d. record w {
              faults = w'.faults;
              posts = w'.posts;
              actions = w'.actions;
              diagnoses = d;
            })
            (sym (ap (λ x. x.diagnoses) h.untouched));
    others = λ j e. ap (λ x. services.diagnoses_table.find j x.diagnoses) h.untouched;
    proposals = h.proposals;
    sent = h.sent;
    posted = h.posted;
    to_endpoint = h.to_endpoint;
  }

  saved-Confined :
      (g : Diagnosis) (w : World services) → g.id ≡ diagnosis_id → Confined w (save_diagnosis T g w)
  saved-Confined g w e = record {
    untouched = refl;
    others = λ j e'. services.diagnoses_table.find-save j g w.diagnoses ∙ rw (e, e') refl;
    proposals = λ j. inl refl;
    sent = [];
    posted = sym (append_nil w.posts);
    to_endpoint = tt;
  }

  abbrev confined : Preorder (World services)
  confined = record {
    Related = Confined;
    itself = λ w. harmless-Confined w w (Harmless-itself services endpoint_id diagnosis_id w);
    then_ = Confined-then;
  }

  faults-Confined : (w : World services) (fs : List Bool) → Confined w (record w { faults = fs })
  faults-Confined w fs = record {
    untouched = refl;
    others = λ j e. refl;
    proposals = λ j. inl refl;
    sent = [];
    posted = sym (append_nil w.posts);
    to_endpoint = tt;
  }

  Keeps-one_or_raise : {A : Type 0} (o : Option A) → Keeps confined (one_or_raise services o)
  unfolding one_or_raise
  Keeps-one_or_raise none = Keeps-raise confined _
  Keeps-one_or_raise (some a) = Keeps-pure confined a

  left_stage-world : (r : Result (Unit {0}) × Stage T) → (left_stage T r).1 ≡ r.1.world
  left_stage-world (ok u, s) = refl
  left_stage-world (raised, s) = refl

  Keeps-invoke : (session : client.Session) → Keeps confined (invoke T session)
  unfolding invoke
  Keeps-invoke session w =
      subst (Confined w) (sym (left_stage-world (graph T (stage_of T session w))))
        (harmless-Confined w _ (graph-Harmless (stage_of T session w)))

  -- The rows that a run writes are those of its own diagnosis.
  abbrev pub IsOwn : Option Diagnosis → Type 0
  IsOwn none = Unit {0}
  IsOwn (some g) = g.id ≡ diagnosis_id

  Keeps-persist_row : (o : Option Diagnosis) → IsOwn o → Keeps confined (persist_row T o)
  Keeps-persist_row none h = Keeps-raise confined _
  Keeps-persist_row (some g) h =
      Keeps-command confined faults-Confined _ (λ w. saved-Confined g w h)

  row_from-IsOwn :
      (cost : ℕ) (root_cause : Option Text) (confidence : Option Confidence)
      (recommendation email evidence : Option Text)
      → IsOwn (row_from T cost root_cause confidence recommendation email evidence)
  row_from-IsOwn cost (some a) (some b) (some c) (some d) (some e) = refl
  row_from-IsOwn cost (some a) (some b) (some c) (some d) none = tt
  row_from-IsOwn cost (some a) (some b) (some c) none e = tt
  row_from-IsOwn cost (some a) (some b) none d e = tt
  row_from-IsOwn cost (some a) none c d e = tt
  row_from-IsOwn cost none b c d e = tt

  pub final_row-IsOwn : (st : AgentState) → IsOwn (final_row T st)
  unfolding final_row
  final_row-IsOwn st = row_from-IsOwn _ _ _ _ _ _

  inserted-Confined :
      (o : Option Endpoint) (g : Diagnosis) (w : World services)
      → g.id ≡ diagnosis_id
      → Confined w (insert_if T o g w).1
  inserted-Confined none g w own =
      harmless-Confined w w (Harmless-itself services endpoint_id diagnosis_id w)
  inserted-Confined (some endpoint) g w own = saved-Confined g w own

  Keeps-committed : (b : Bool) → Keeps confined (committed T b)
  unfolding committed
  Keeps-committed true = Keeps-pure confined tt
  Keeps-committed false = Keeps-raise confined _

  Keeps-run_diagnosis : (llm : Option client.Session) → Keeps confined (run_diagnosis T llm)
  unfolding run_diagnosis persist_result insert_diagnosis
  Keeps-run_diagnosis llm =
      Keeps-bind confined _ _
        (Keeps-exec confined faults-Confined _ (λ w. inserted-Confined _ (stub T) w refl))
        (λ b. Keeps-bind confined _ _ (Keeps-committed b) (λ u.
          Keeps-bind confined _ _ (Keeps-one_or_raise llm) (λ session.
            Keeps-bind confined _ _ (Keeps-invoke session) (λ st.
              Keeps-bind confined _ _ (Keeps-persist_row (final_row T st) (final_row-IsOwn st))
                (λ v. Keeps-pure confined _)))))

  -- A run of the agent, whatever the model and the tools answer and whether it succeeds or not,
  -- changes no row and no key but these: the row of its own diagnosis; rows of actions, each of which
  -- it leaves pending and of the diagnosed endpoint; POSTs to the URL of that endpoint; and faults that are
  -- used up. Nothing is raised.
  pub diagnose_and_record-Confined :
      (llm : Option client.Session) (w : World services)
      → Confined w (diagnose_and_record T llm w).1
  unfolding diagnose_and_record
  diagnose_and_record-Confined llm w = Keeps-run_diagnosis llm w
