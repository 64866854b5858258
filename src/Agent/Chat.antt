-- ===== src/Agent/Chat.antt =====
-- relay/agent: the shapes that the graph and the model's client share, those of the Anthropic Messages
-- API. Texts are lists of code points. The names and keys that the code compares are constructors.
use Prim.Native.Char.{code}
use Prim.Native.String.{String}
use web_hooks.Base.{
  ℕ, ◌≡◌, refl, Bool, true, false, Option, none, some, List, [], ◌∷◌, ◌++◌, ◌==◌, if◌then◌else◌,
  arith,
}
use web_hooks.RetryQueue.{Text}
use web_hooks.Worker.Monad.{Action}

-- The code points of a text.
abbrev pub codes : String → Text
codes String.[] = []
codes (String.◌∷◌ c s) = code c ∷ codes s

abbrev pub same_text : Text → Text → Bool
same_text [] [] = true
same_text [] (d ∷ t) = false
same_text (c ∷ s) [] = false
same_text (c ∷ s) (d ∷ t) = if c == d then same_text s t else false

-- `sep.join(…)`
abbrev pub join_more : Text → List Text → Text
join_more sep [] = []
join_more sep (t ∷ ts) = sep ++ t ++ join_more sep ts

abbrev pub join : Text → List Text → Text
join sep [] = []
join sep (t ∷ ts) = t ++ join_more sep ts

-- The name of a tool: those that the code knows, or another.
pub data Tool : Type 0 where
  query_attempts get_endpoint_config probe_endpoint check_dns_tls : Tool
  pause_endpoint replay_dlq submit_diagnosis : Tool
  unlisted : Text → Tool

-- A value of a tool's input: a string, or what is none.
pub data Value : Type 0 where
  string : Text → Value
  integer : ℕ → Value
  other : Text → Value

-- The input of a tool call at the keys that the code reads.
pub record Input : Type 0 where
  pub window_minutes : Option Value
  pub reason : Option Value
  pub root_cause : Option Value
  pub confidence : Option Value
  pub summary : Option Value
  pub recommendation : Option Value
  pub draft_email : Option Value

abbrev pub empty_input : Input
empty_input = record {
  window_minutes = none;
  reason = none;
  root_cause = none;
  confidence = none;
  summary = none;
  recommendation = none;
  draft_email = none;
}

-- `input or {}`
abbrev pub or_empty : Option Input → Input
or_empty none = empty_input
or_empty (some i) = i

pub data Block : Type 0 where
  text : Text → Block
  tool_use : (id : Text) (name : Tool) (input : Option Input) → Block

pub record Usage : Type 0 where
  pub input_tokens : ℕ
  pub output_tokens : ℕ

-- What `messages.create` returns.
pub record Response : Type 0 where
  pub content : List Block
  pub usage : Usage

-- An item of a user's turn: the result of a tool, or another as `str` gives it.
pub data Item : Type 0 where
  tool_result : (tool_use_id content : Text) → Item
  plain : Text → Item

pub data Message : Type 0 where
  user : Text → Message
  user_items : List Item → Message
  assistant : List Block → Message

-- A tool's schema as the model sees it.
pub record Property : Type 0 where
  pub key : Text
  pub kind : Text
  pub choices : List Text
  pub description : Text

pub record Schema : Type 0 where
  pub name : Tool
  pub description : Text
  pub properties : List Property
  pub required : List Text

pub record Request : Type 0 where
  pub system : Text
  pub messages : List Message
  pub tools : List Schema

-- An object with `.messages.create`: the adapter, or the fake of a test.
pub record Client : Type 1 where
  pub Session : Type 0
  pub create : Request → Action Session Response

pub same_text_refl : (t : Text) → same_text t t ≡ true
same_text_refl [] = refl
same_text_refl (c ∷ t) = ground (arith, same_text_refl t)
