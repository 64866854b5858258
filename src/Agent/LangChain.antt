-- ===== src/Agent/LangChain.antt =====
-- relay/agent/llm.py: the translation of requests and replies between the Messages API's shape and
-- LangChain's, and the cache of the replies.
use web_hooks.Base.{
  ℕ, ◌+◌, Bool, true, false, ◌&&◌, ◌||◌, Option, none, some, List, [], ◌∷◌, ◌++◌, if◌then◌else◌,
}
use web_hooks.RetryQueue.{Text}
use web_hooks.Agent.Chat.{
  codes, same_text, join, Tool, Input, or_empty, Block, text, tool_use, Usage, Response, Item,
  tool_result, plain, Message, user, user_items, assistant,
}

-- The shapes of LangChain.
pub record ToolCall : Type 0 where
  pub name : Tool
  pub args : Option Input
  pub id : Option Text

pub data AiContent : Type 0 where
  whole : Text → AiContent
  parts : List Text → AiContent

-- `provider_state` is all else that the message carries.
pub record AiMessage : Type 0 where
  pub content : AiContent
  pub tool_calls : List ToolCall
  pub usage : Option Usage
  pub provider_state : Text

pub data LcMessage : Type 0 where
  system_message human_message : Text → LcMessage
  tool_message : (content tool_call_id : Text) → LcMessage
  ai_message : AiMessage → LcMessage

-- The exceptions of a provider: the name of the type and the message.
pub record Failure : Type 0 where
  pub type_name : Text
  pub message : Text

pub data Outcome : Type 0 where
  replied : AiMessage → Outcome
  failed : Failure → Outcome

-- The dictionary from the id of a tool call to the message that it came in, the latest first.
abbrev pub Cache : Type 0
Cache = List (Text × AiMessage)

unfoldable pub lookup : Text → Cache → Option AiMessage
lookup i [] = none
lookup i ((j, m) ∷ cache) = if same_text j i then some m else lookup i cache

abbrev pub starts_with : Text → Text → Bool
starts_with [] t = true
starts_with (c ∷ s) [] = false
starts_with (c ∷ s) (d ∷ t) = same_text (c ∷ []) (d ∷ []) && starts_with s t

-- `s in t`
abbrev pub occurs_in : Text → Text → Bool
occurs_in s [] = starts_with s []
occurs_in s (d ∷ t) = starts_with s (d ∷ t) || occurs_in s t

-- `lower` is the method of a text.
unfoldable pub is_rate_limit : (lower : Text → Text) → Failure → Bool
is_rate_limit lower e =
    let name = lower e.type_name in
    let message = lower e.message in
    occurs_in (codes "resourceexhausted") name
    || occurs_in (codes "ratelimit") name
    || occurs_in (codes "429") message
    || occurs_in (codes "resource has been exhausted") message
    || occurs_in (codes "quota") message
    || occurs_in (codes "rate limit") message

abbrev pub tool_ids : List Block → List Text
tool_ids [] = []
tool_ids (text t ∷ bs) = tool_ids bs
tool_ids (tool_use id name input ∷ bs) = id ∷ tool_ids bs

-- The message of the first id that is in the cache.
unfoldable pub replay_of : Cache → List Text → Option AiMessage
replay_of cache [] = none
replay_of cache (i ∷ ids) = elim (lookup i cache) [ none ↦ replay_of cache ids | some m ↦ some m ]

abbrev pub texts_of : List Block → List Text
texts_of [] = []
texts_of (text t ∷ bs) = t ∷ texts_of bs
texts_of (tool_use id name input ∷ bs) = texts_of bs

abbrev pub calls_of : List Block → List ToolCall
calls_of [] = []
calls_of (text t ∷ bs) = calls_of bs
calls_of (tool_use id name input ∷ bs) =
    record { name = name; args = some (or_empty input); id = some id } ∷ calls_of bs

abbrev pub newline : Text
newline = b'\n' ∷ []

-- An assistant's turn built from its blocks, without what the provider had added.
unfoldable pub rebuilt : List Block → AiMessage
rebuilt bs = record {
  content = whole (join newline (texts_of bs));
  tool_calls = calls_of bs;
  usage = none;
  provider_state = [];
}

abbrev pub lc_items : List Item → List LcMessage
lc_items [] = []
lc_items (tool_result id content ∷ items) = tool_message content id ∷ lc_items items
lc_items (plain t ∷ items) = human_message t ∷ lc_items items

unfoldable pub lc_turn : Cache → Message → List LcMessage
unfolding replay_of rebuilt
lc_turn cache (user t) = human_message t ∷ []
lc_turn cache (user_items items) = lc_items items
lc_turn cache (assistant bs) = elim (replay_of cache (tool_ids bs)) [
  | none ↦ ai_message (rebuilt bs) ∷ []
  | some m ↦ ai_message m ∷ []
]

unfoldable pub lc_turns : Cache → List Message → List LcMessage
unfolding lc_turn
lc_turns cache [] = []
lc_turns cache (m ∷ ms) = lc_turn cache m ++ lc_turns cache ms

unfoldable pub to_lc_messages : Text → List Message → Cache → List LcMessage
unfolding lc_turns
to_lc_messages [] messages cache = lc_turns cache messages
to_lc_messages (c ∷ system) messages cache = system_message (c ∷ system) ∷ lc_turns cache messages

abbrev pub concat : List Text → Text
concat [] = []
concat (t ∷ ts) = t ++ concat ts

abbrev pub text_of_content : AiContent → Text
text_of_content (whole t) = t
text_of_content (parts ts) = concat ts

-- `if text: blocks.append(…)`
abbrev pub text_block : Text → List Block
text_block [] = []
text_block (c ∷ t) = text (c ∷ t) ∷ []

-- `call.get("id")`, if it is neither absent nor empty.
unfoldable pub given_id : ToolCall → Option Text
given_id call = elim call.id [ none ↦ none | some [] ↦ none | some (c ∷ t) ↦ some (c ∷ t) ]

-- `fresh n` is the n-th of the made-up ids.
unfoldable pub call_blocks : (fresh : ℕ → Text) → ℕ → List ToolCall → List Block
unfolding given_id
call_blocks fresh n [] = []
call_blocks fresh n (call ∷ calls) =
    elim (given_id call) [
      | none ↦ tool_use (fresh n) call.name (some (or_empty call.args))
      | some id ↦ tool_use id call.name (some (or_empty call.args))
    ]
    ∷ call_blocks fresh (n + 1) calls

abbrev pub no_usage : Usage
no_usage = record { input_tokens = 0; output_tokens = 0 }

abbrev pub usage_of : Option Usage → Usage
usage_of none = no_usage
usage_of (some u) = u

unfoldable pub from_lc_response : (fresh : ℕ → Text) → AiMessage → Response
unfolding call_blocks
from_lc_response fresh m = record {
  content = text_block (text_of_content m.content) ++ call_blocks fresh 0 m.tool_calls;
  usage = usage_of m.usage;
}

-- The loop that fills the cache after a reply.
unfoldable pub remember : AiMessage → List ToolCall → Cache → Cache
unfolding given_id
remember m [] cache = cache
remember m (call ∷ calls) cache = elim (given_id call) [
  | none ↦ remember m calls cache
  | some id ↦ remember m calls ((id, m) ∷ cache)
]
