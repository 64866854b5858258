-- ===== src/Agent/Llm.antt =====
-- relay/agent/llm.py: the adapter between the Messages API's shape and a LangChain chat model. The
-- model is the parameter `ainvoke`: what its n-th call gives. Prices are in units of 10⁻⁷ dollars,
-- delays in milliseconds.
pub mod Retries
pub mod Replay
mod Tests
use web_hooks.Base.{
  ℕ, zero, suc, ◌+◌, ◌*◌, ◌&&◌, Option, none, List, [], ◌∷◌, ◌++◌, ltb, if◌then◌else◌,
}
use web_hooks.RetryQueue.{Text}
use web_hooks.Worker.Monad.{ok, raised, Action}
use web_hooks.Agent.Chat.{Response, Schema, Request, Client}
use web_hooks.Agent.LangChain.{
  LcMessage, Outcome, replied, failed, Cache, is_rate_limit, to_lc_messages, from_lc_response,
  remember,
}

abbrev pub retry_max : ℕ
retry_max = 2

abbrev pub retry_base_delay : ℕ
retry_base_delay = 2000

-- `settings.llm_provider`
pub data Provider : Type 0 where
  gemini anthropic : Provider
  unknown : Text → Provider

-- `PRICING.get(provider, PRICING["gemini"])`: the prices of one token in and one token out.
abbrev pub pricing : Provider → ℕ × ℕ
pricing gemini = (3, 25)
pricing anthropic = (30, 150)
pricing (unknown name) = (3, 25)

unfoldable pub estimate_cost : Provider → ℕ → ℕ → ℕ
estimate_cost provider input_tokens output_tokens =
    let (inp, out) = pricing provider in input_tokens * inp + output_tokens * out

-- The adapter's cache, the calls of the model so far, and the sleeps between them.
pub record Adapter : Type 0 where
  pub cache : Cache
  pub invoked : ℕ
  pub slept : List ℕ

module _ (lower : Text → Text) (fresh : ℕ → ℕ → Text)
    (ainvoke : ℕ → List LcMessage → List Schema → Outcome) where
  -- What follows the outcome of an attempt; `more` is the rest of the loop.
  unfoldable pub after_attempt :
      ℕ → ℕ → (ℕ → ℕ → Action Adapter Response) → Outcome → Action Adapter Response
  unfolding from_lc_response remember is_rate_limit
  after_attempt attempt delay more (replied m) s = (
    ok (from_lc_response (fresh s.invoked) m),
    record s { cache = remember m m.tool_calls s.cache },
  )
  after_attempt attempt delay more (failed e) s =
      if is_rate_limit lower e && ltb attempt retry_max
      then more (attempt + 1) (delay * 2) (record s { slept = s.slept ++ delay ∷ [] })
      else (raised, s)

  -- `for attempt in range(RETRY_MAX + 1)`: `left` attempts remain. The last of them answers or
  -- raises, so the end of the loop is not reached.
  unfoldable pub attempts : ℕ → ℕ → ℕ → List LcMessage → List Schema → Action Adapter Response
  unfolding after_attempt
  attempts zero attempt delay messages tools s = (raised, s)
  attempts (suc left) attempt delay messages tools s =
      after_attempt attempt delay (λ a d. attempts left a d messages tools)
        (ainvoke s.invoked messages tools) (record s { invoked = s.invoked + 1 })

  unfoldable pub create : Request → Action Adapter Response
  unfolding attempts to_lc_messages
  create r s =
      attempts (retry_max + 1) 0 retry_base_delay (to_lc_messages r.system r.messages s.cache)
        r.tools s

  -- `LLMClient`
  unfoldable pub llm_client : Client
  unfolding create
  llm_client = record { Session = Adapter; create = create }

-- `get_llm`: the packages of a provider are imported only here, which may fail.
unfoldable pub get_llm :
    {A : Type 0} → (gemini_model anthropic_model : Option A) → Provider → Option A
get_llm gemini_model anthropic_model gemini = gemini_model
get_llm gemini_model anthropic_model anthropic = anthropic_model
get_llm gemini_model anthropic_model (unknown name) = none
