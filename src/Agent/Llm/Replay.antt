-- ===== src/Agent/Llm/Replay.antt =====
-- An assistant's turn that is sent back is the model's own message.
use web_hooks.Base.{
  ℕ, zero, suc, ◌+◌, ◌*◌, ◌≡◌, refl, ◌&&◌, inl, inr, some, List, [], ◌∷◌, ◌++◌, ltb, Bool-cases,
  Option-cases, arith,
}
use web_hooks.RetryQueue.{Text}
use web_hooks.Worker.Monad.{Result, ok, raised, Action}
use web_hooks.Agent.Chat.{same_text_refl, assistant, Response, Request, Schema, Block}
use web_hooks.Agent.LangChain.{
  Outcome, replied, failed, AiMessage, ToolCall, Cache, LcMessage, is_rate_limit, lookup, given_id,
  remember, replay_of, tool_ids, text_block, text_of_content, call_blocks, from_lc_response,
  lc_turn, ai_message, to_lc_messages,
}
use package.web_hooks.Agent.Llm.{
  Adapter, retry_max, retry_base_delay, after_attempt, attempts, create,
}

remember-keeps :
    (m : AiMessage) (calls : List ToolCall) (cache : Cache) (i : Text)
    → lookup i cache ≡ some m
    → lookup i (remember m calls cache) ≡ some m
unfolding remember lookup
remember-keeps m [] cache i h = h
remember-keeps m (call ∷ calls) cache i h = elim (Option-cases (given_id call)) [
  | inl e ↦ rw (e, remember) (remember-keeps m calls cache i h)
  | inr (j, e) ↦ rw (e, remember) (remember-keeps m calls ((j, m) ∷ cache) i (ground (arith, h)))
]

tool_ids-text_block : (t : Text) (bs : List Block) → tool_ids (text_block t ++ bs) ≡ tool_ids bs
tool_ids-text_block [] bs = refl
tool_ids-text_block (c ∷ t) bs = refl

-- The first tool call has an id of its own.
abbrev pub FirstCallNamed : List ToolCall → Type 0
FirstCallNamed [] = ⊥
FirstCallNamed (call ∷ calls) = (i : Text) × (given_id call ≡ some i)

lookup-head : (i : Text) (m : AiMessage) (cache : Cache) → lookup i ((i, m) ∷ cache) ≡ some m
unfolding lookup
lookup-head i m cache = rw (same_text_refl i, lookup) refl

lookup-remember :
    (m : AiMessage) (call : ToolCall) (calls : List ToolCall) (cache : Cache) (i : Text)
    → given_id call ≡ some i
    → lookup i (remember m (call ∷ calls) cache) ≡ some m
unfolding remember
lookup-remember m call calls cache i e =
    rw (e, remember) (remember-keeps m calls ((i, m) ∷ cache) i (lookup-head i m cache))

tool_ids-call_blocks :
    (fresh : ℕ → Text) (n : ℕ) (call : ToolCall) (calls : List ToolCall) (i : Text)
    → given_id call ≡ some i
    → tool_ids (call_blocks fresh n (call ∷ calls)) ≡ i ∷ tool_ids (call_blocks fresh (n + 1) calls)
unfolding call_blocks
tool_ids-call_blocks fresh n call calls i e = rw (e, call_blocks) refl

replay_of-first :
    (cache : Cache) (i : Text) (ids : List Text) (m : AiMessage)
    → lookup i cache ≡ some m
    → replay_of cache (i ∷ ids) ≡ some m
unfolding replay_of
replay_of-first cache i ids m h = rw (h, replay_of) refl

replay_of-remember :
    (fresh : ℕ → Text) (m : AiMessage) (calls : List ToolCall) (cache : Cache)
    → FirstCallNamed calls
    → replay_of (remember m calls cache) (tool_ids (call_blocks fresh 0 calls)) ≡ some m
replay_of-remember fresh m [] cache h = elim h [ ]
replay_of-remember fresh m (call ∷ calls) cache (i, e) =
    rw (tool_ids-call_blocks fresh 0 call calls i e)
      (replay_of-first _ i _ m (lookup-remember m call calls cache i e))

lc_turn-replays :
    (fresh : ℕ → Text) (m : AiMessage) (cache : Cache)
    → FirstCallNamed m.tool_calls
    → lc_turn (remember m m.tool_calls cache) (assistant (from_lc_response fresh m).content)
      ≡ ai_message m ∷ []
unfolding lc_turn from_lc_response
lc_turn-replays fresh m cache h =
    rw (tool_ids-text_block (text_of_content m.content) (call_blocks fresh 0 m.tool_calls), lc_turn)
      (rw (lc_turn, replay_of-remember fresh m m.tool_calls cache h) refl)

module _ (lower : Text → Text) (fresh : ℕ → ℕ → Text)
    (ainvoke : ℕ → List LcMessage → List Schema → Outcome) where
  -- What is returned is the translation of a message with which the model replied, and as an
  -- assistant's turn it goes back as that message, if the first of its tool calls has an id.
  abbrev pub Replays : List LcMessage → List Schema → Result Response → Adapter → Type 0
  Replays messages tools raised s = Unit {0}
  Replays messages tools (ok r) s =
      (m : AiMessage) × (k : ℕ) × (ainvoke k messages tools ≡ replied m)
      × (r ≡ from_lc_response (fresh (k + 1)) m)
      × (FirstCallNamed m.tool_calls → lc_turn s.cache (assistant r.content) ≡ ai_message m ∷ [])

  after_attempt-Replays :
      (messages : List LcMessage) (tools : List Schema) (attempt delay : ℕ)
      (more : ℕ → ℕ → Action Adapter Response) (out : Outcome) (s : Adapter)
      → ainvoke s.invoked messages tools ≡ out
      → ((a d : ℕ) (t : Adapter) → Replays messages tools (more a d t).0 (more a d t).1)
      → let res =
          after_attempt lower fresh ainvoke attempt delay more out
            (record s { invoked = s.invoked + 1 }) in
        Replays messages tools res.0 res.1
  unfolding after_attempt
  after_attempt-Replays messages tools attempt delay more (replied m) s e h =
      (m, s.invoked, e, refl, lc_turn-replays (fresh (s.invoked + 1)) m s.cache)
  after_attempt-Replays messages tools attempt delay more (failed e) s eq h =
      elim (Bool-cases (is_rate_limit lower e && ltb attempt retry_max)) [
        | inl b ↦ rw b (h (attempt + 1) (delay * 2) _)
        | inr b ↦ rw b tt
      ]

  attempts-Replays :
      (left attempt delay : ℕ) (messages : List LcMessage) (tools : List Schema) (s : Adapter)
      → let res = attempts lower fresh ainvoke left attempt delay messages tools s in
        Replays messages tools res.0 res.1
  unfolding attempts
  attempts-Replays zero attempt delay messages tools s = tt
  attempts-Replays (suc left) attempt delay messages tools s =
      after_attempt-Replays messages tools attempt delay
        (λ a d. attempts lower fresh ainvoke left a d messages tools)
        (ainvoke s.invoked messages tools) s refl
        (λ a d t. attempts-Replays left a d messages tools t)

  -- What `create` returns is the translation of a message with which the model has replied to the
  -- translated request. If the first tool call of
  -- that message has an id, then the returned content, as an assistant's turn of the next request,
  -- is translated back to that very message, with all that the provider had added to it.
  pub create-Replays :
      (r : Request) (s : Adapter)
      → let res = create lower fresh ainvoke r s in
        Replays (to_lc_messages r.system r.messages s.cache) r.tools res.0 res.1
  unfolding create
  create-Replays r s = attempts-Replays 3 0 retry_base_delay _ r.tools s
