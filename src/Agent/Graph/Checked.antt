-- ===== src/Agent/Graph/Checked.antt =====
-- What is stored when a run succeeds and when it fails.
use web_hooks.Base.{
  ◌≡◌, refl, false, ◌⊎◌, inl, inr, Option, none, some, [], arith, ap, sym, ◌∙◌, subst, ℕ,
}
use web_hooks.Db.{Endpoint, Diagnosis, Confidence, low}
use web_hooks.Services.{World}
use web_hooks.RetryQueue.{Text}
use web_hooks.Api.{one_or_raise}
use web_hooks.Worker.Monad.{
  Result, ok, raised, pure, ◌>>=◌, Returns, Returns-bind, Returns-command, Returns-pure,
  Returns-raise, Returns-mono, Returns-state, Returns-exec, exec-quiet,
}
use web_hooks.Agent.Chat.{codes, string, or_empty}
use web_hooks.Agent.State.{AgentState, Setting, text_or, confidence_column}
use web_hooks.Agent.Loop.{Stage}
use package.web_hooks.Agent.Graph.{
  graph, stage_of, left_stage, invoke, save_diagnosis, insert_if, insert_diagnosis, committed, stub,
  persist_row, persist_result, final_row, row_from, run_diagnosis,
}
use package.web_hooks.Agent.Graph.Confined.{graph-Harmless, IsOwn, final_row-IsOwn}
use package.web_hooks.Agent.Graph.Humble.{
  any_verification, IsMarked, IsHumble, graph-IsMarked, graph-IsHumble,
}

module _ (T : Setting) where
  open T use {services, client, diagnosis_id}

  -- What the graph leaves to be stored: a state whose result is humble and whose mark is true, and
  -- the diagnoses as they were.
  abbrev Concluded : World services → AgentState → World services → Type 0
  Concluded w st w' = IsMarked st × IsHumble st × (w'.diagnoses ≡ w.diagnoses)

  invoke-Concluded :
      (session : client.Session) (w : World services)
      → Returns (Concluded w) (λ w'. w'.diagnoses ≡ w.diagnoses) (invoke T session w)
  unfolding invoke
  invoke-Concluded session w =
      let s = stage_of T session w in
      go (graph T s) (graph-IsMarked T s refl) (graph-IsHumble T s)
        (ap (λ x. x.diagnoses) (graph-Harmless T s).untouched)
    where
      go :
          (r : Result (Unit {0}) × Stage T)
          → IsMarked r.1.agent
          → Returns (λ _ t. IsHumble t.agent) (λ _. Unit {0}) r
          → r.1.world.diagnoses ≡ w.diagnoses
          → Returns (Concluded w) (λ w'. w'.diagnoses ≡ w.diagnoses) (left_stage T r)
      go (ok u, t) m h e = (m, h, e)
      go (raised, t) m h e = e

  abbrev pub stored : World services → Option Diagnosis
  stored w = services.diagnoses_table.find diagnosis_id w.diagnoses

  -- The row of a run that returned the state `st`.
  abbrev pub IsRecorded : AgentState → World services → Type 0
  IsRecorded st w =
      (g : Diagnosis) × (stored w ≡ some g)
      × (final_row T st ≡ some g)
      × (any_verification st.tool_calls_made ≡ false → g.confidence ≡ low)

  row_from-low :
      (cost : ℕ) (a : Option Text) (b : Option Confidence) (c d e : Option Text) (g : Diagnosis)
      → b ≡ some low
      → row_from T cost a b c d e ≡ some g
      → g.confidence ≡ low
  row_from-low cost (some a) (some b) (some c) (some d) (some e) g h k =
      let confidence_of : Option Diagnosis → Confidence =
        λ o. elim o [ none ↦ low | some x ↦ x.confidence ] in
      let claimed : b ≡ low = cc in sym (ap confidence_of k) ∙ claimed
  row_from-low cost (some a) (some b) (some c) (some d) none g h k = absurd (cc)
  row_from-low cost (some a) (some b) (some c) none e g h k = absurd (cc)
  row_from-low cost (some a) (some b) none d e g h k = absurd (cc)
  row_from-low cost (some a) none c d e g h k = absurd (cc)
  row_from-low cost none b c d e g h k = absurd (cc)

  final_row-low :
      (st : AgentState) (g : Diagnosis)
      → IsMarked st
      → IsHumble st
      → final_row T st ≡ some g
      → any_verification st.tool_calls_made ≡ false
      → g.confidence ≡ low
  unfolding final_row confidence_column
  final_row-low st g m h e v =
      let default = string (codes "low") in
      let (i, result, confidence) = h (m ∙ v) in
      row_from-low _ _ _ _ _ _ g
        (ap (λ r. confidence_column (text_or (or_empty r).confidence default)) result
          ∙ ap (λ c. confidence_column (text_or c default)) confidence)
        e

  stored-saved :
      (g : Diagnosis) (w : World services)
      → g.id ≡ diagnosis_id
      → stored (save_diagnosis T g w) ≡ some g
  stored-saved g w own =
      services.diagnoses_table.find-save diagnosis_id g w.diagnoses ∙ ground (arith, own)

  persist_row-IsRecorded :
      (st : AgentState) (o : Option Diagnosis) (w0 w : World services)
      → final_row T st ≡ o
      → IsMarked st
      → IsHumble st
      → w.diagnoses ≡ w0.diagnoses
      → Returns (λ _ w'. IsRecorded st w') (λ w'. w'.diagnoses ≡ w0.diagnoses) (persist_row T o w)
  persist_row-IsRecorded st none w0 w e m h d = Returns-raise _ _ w d
  persist_row-IsRecorded st (some g) w0 w e m h d =
      Returns-command _ _ _ w
        (λ fs. (
          g,
          stored-saved g w (subst (IsOwn T) e (final_row-IsOwn T st)),
          e,
          final_row-low st g m h e,
        ))
        (λ fs. d)

  -- After a failure: the row of the diagnosis is as it was, or it is the stub.
  abbrev pub HasStub : World services → World services → Type 0
  HasStub w w' = (stored w' ≡ stored w) ⊎ (stored w' ≡ some (stub T))

  finish :
      (w : World services) (st : AgentState) (w1 w2 : World services)
      → stored w1 ≡ some (stub T)
      → Concluded w1 st w2
      → Returns IsRecorded (HasStub w) ((persist_result T st >>= λ _. pure st) w2)
  unfolding persist_result
  finish w st w1 w2 e (m, h, d) = Returns-bind _ _ _ _ w2 (
      Returns-mono _ _ _ _ (persist_row T (final_row T st) w2)
        (λ u w' rec. Returns-pure _ _ st w' rec)
        (λ w' d'. inr (ap (services.diagnoses_table.find diagnosis_id) d' ∙ e))
        (persist_row-IsRecorded st (final_row T st) w1 w2 refl m h d))

  with_session :
      (w : World services) (session : client.Session) (w1 : World services)
      → stored w1 ≡ some (stub T)
      → Returns IsRecorded
          (HasStub w)
          ((invoke T session >>= λ st. persist_result T st >>= λ _. pure st) w1)
  with_session w session w1 e = Returns-bind _ _ _ _ w1 (
      Returns-mono _ _ _ _ (invoke T session w1) (λ st w2 c. finish w st w1 w2 e c)
        (λ w2 d. inr (ap (services.diagnoses_table.find diagnosis_id) d ∙ e))
        (invoke-Concluded session w1))

  after_stub :
      (w : World services) (o : Option client.Session) (w1 : World services)
      → stored w1 ≡ some (stub T)
      → Returns IsRecorded (HasStub w) (
          (one_or_raise services o >>= λ session.
          invoke T session >>= λ st. persist_result T st >>= λ _. pure st)
            w1)
  unfolding one_or_raise
  after_stub w none w1 e = Returns-bind _ _ _ _ w1 (Returns-raise _ _ w1 (inr e))
  after_stub w (some session) w1 e =
      Returns-bind _ _ _ _ w1 (Returns-pure _ _ session w1 (with_session w session w1 e))

  after_insert :
      (w : World services) (o : Option client.Session) (found : Option Endpoint)
      (w1 : World services)
      → w1.diagnoses ≡ w.diagnoses
      → let (b, w2) = insert_if T found (stub T) w1 in
        Returns IsRecorded (HasStub w) (
          (committed T b >>= λ _. one_or_raise services o >>= λ session.
          invoke T session >>= λ st. persist_result T st >>= λ _. pure st)
            w2)
  unfolding committed
  after_insert w o none w1 same =
      Returns-bind _ _ _ _ w1
        (Returns-raise _ _ w1 (inl (ap (services.diagnoses_table.find diagnosis_id) same)))
  after_insert w o (some endpoint) w1 same =
      Returns-bind _ _ _ _ _
        (Returns-pure _ _ tt _ (after_stub w o _ (stored-saved (stub T) w1 refl)))

  -- A run that returns has stored the row of its state, and if it called no verification tool then
  -- the confidence in that row is low. A run that raises has left the row of its diagnosis as it
  -- was, if not even the stub could be stored, or it has left the stub, an agent error of low
  -- confidence.
  pub run_diagnosis-IsRecorded :
      (llm : Option client.Session) (w : World services)
      → Returns IsRecorded (HasStub w) (run_diagnosis T llm w)
  unfolding run_diagnosis persist_result insert_diagnosis
  run_diagnosis-IsRecorded llm w = Returns-bind _ _ _ _ w (
      Returns-exec _ _ _ w (λ fs. after_insert w llm _ (record w { faults = fs }) refl)
        (λ fs. inl refl))

  abbrev pub IsOnRecord : World services → Type 0
  IsOnRecord w = (g : Diagnosis) × (stored w ≡ some g)

  -- Where no call of a service fails and the endpoint is on record, the run leaves a row of its
  -- diagnosis, whatever the model does.
  pub run_diagnosis-IsOnRecord :
      (llm : Option client.Session) (w : World services) {endpoint : Endpoint}
      → w.faults ≡ []
      → services.endpoints_table.find T.endpoint_id w.endpoints ≡ some endpoint
      → IsOnRecord (run_diagnosis T llm w).1
  unfolding run_diagnosis ◌>>=◌ insert_diagnosis committed pure
  run_diagnosis-IsOnRecord llm w quiet stands =
      rw (exec-quiet (insert_diagnosis T (stub T)) w quiet, stands)
        (Returns-state IsOnRecord _ (
          Returns-mono IsRecorded (λ st. IsOnRecord) (HasStub saved) IsOnRecord _
            (λ st w' rec. (rec.0, rec.1)) (λ w' kept. (stub T, left w' kept))
            (after_stub saved llm saved there)))
    where
      saved : World services
      saved = save_diagnosis T (stub T) w

      there : stored saved ≡ some (stub T)
      there = stored-saved (stub T) w refl

      left : (w' : World services) → HasStub saved w' → stored w' ≡ some (stub T)
      left w' (inl same) = same ∙ there
      left w' (inr e) = e
