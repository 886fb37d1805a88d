-- ===== src/Llm.antt =====
-- packages/core/src/llm/client.ts: which language model is asked, and what is read from its answer. The
-- environment's variables and the network are parameters.
pub mod Resolution
use agentct.Base.{
  ℕ, Text, codes, text_eq, is_empty, or_else, Bool, true, false, not, ◌&&◌, Option, none, some,
  List, [], ◌∷◌, ◌++◌, map, if◌then◌else◌,
}
use agentct.Base.Js.{Value, Values, null, str, arr, obj, no_values, element, get_member}

pub data LlmProvider : Type 0 where
  anthropic ollama : LlmProvider

pub record LlmConfig : Type 0 where
  pub provider : Option LlmProvider
  pub api_key : Option Text
  pub base_url : Option Text
  pub model : Option Text

pub record LlmCallParams : Type 0 where
  pub system : Option Text
  pub prompt : Text
  pub max_tokens : Option ℕ
  pub json : Bool

-- The variables of the environment that are read.
pub record Environment : Type 0 where
  pub anthropic_api_key : Option Text
  pub ollama_base_url : Option Text
  pub ollama_model : Option Text

pub record ResolvedLlm : Type 0 where
  pub provider : LlmProvider
  pub api_key : Option Text
  pub base_url : Text
  pub model : Text

-- `a ?? b`
abbrev pub either {ℓ} : {A : Type ℓ} → Option A → Option A → Option A
either (some a) b = some a
either none b = b

-- Whether a text is there and not empty.
abbrev pub is_set : Option Text → Bool
is_set none = false
is_set (some t) = not (is_empty t)

module _ (env : Environment) where
  unfoldable pub provider_of : LlmConfig → Option LlmProvider
  provider_of cfg = elim cfg.provider [
    | some p ↦ some p
    | none ↦
        if is_set (either cfg.api_key env.anthropic_api_key)
        then some anthropic
        else if is_set (either cfg.base_url env.ollama_base_url)
        then some ollama
        else none
  ]

  unfoldable pub resolve_with : LlmConfig → Option LlmProvider → Option ResolvedLlm
  resolve_with cfg none = none
  resolve_with cfg (some anthropic) =
      let key = either cfg.api_key env.anthropic_api_key in
      if is_set key
      then some (record {
        provider = anthropic;
        api_key = key;
        base_url = or_else cfg.base_url (codes "https://api.anthropic.com");
        model = or_else cfg.model (codes "claude-haiku-4-5-20251001");
      })
      else none
  resolve_with cfg (some ollama) = some (record {
    provider = ollama;
    api_key = none;
    base_url = or_else cfg.base_url (or_else env.ollama_base_url (codes "http://127.0.0.1:11434"));
    model = or_else cfg.model (or_else env.ollama_model (codes "llama3.2"));
  })

  unfoldable pub resolve_llm_config : LlmConfig → Option ResolvedLlm
  unfolding resolve_with provider_of
  resolve_llm_config cfg = resolve_with cfg (provider_of cfg)

pub record ChatMessage : Type 0 where
  pub role : Text
  pub content : Text

-- A request to a provider: where it goes, the key that it carries, and the fields of its body.
pub record LlmRequest : Type 0 where
  pub url : Text
  pub key : Option Text
  pub model : Text
  pub max_tokens : Option ℕ
  pub system : Option Text
  pub messages : List ChatMessage
  pub json_format : Bool

-- The answer, if the network gives one; `body` is `none` where it is no JSON.
pub record LlmResponse : Type 0 where
  pub ok : Bool
  pub body : Option Value

abbrev pub given : Option Text → Option Text
given t = if is_set t then t else none

abbrev user : Text → List ChatMessage
user prompt = record { role = codes "user"; content = prompt } ∷ []

unfoldable pub anthropic_request : ResolvedLlm → LlmCallParams → LlmRequest
anthropic_request cfg params = record {
  url = cfg.base_url ++ codes "/v1/messages";
  key = cfg.api_key;
  model = cfg.model;
  max_tokens = some (or_else params.max_tokens 1500);
  system = given params.system;
  messages = user params.prompt;
  json_format = false;
}

abbrev system_message : Option Text → List ChatMessage
system_message none = []
system_message (some s) = record { role = codes "system"; content = s } ∷ []

unfoldable pub ollama_request : ResolvedLlm → LlmCallParams → LlmRequest
ollama_request cfg params = record {
  url = cfg.base_url ++ codes "/api/chat";
  key = none;
  model = cfg.model;
  max_tokens = none;
  system = none;
  messages = system_message (given params.system) ++ user params.prompt;
  json_format = params.json;
}

-- `x ?? ""`, for a member that is read as a text.
abbrev or_empty : Option Value → Value
or_empty none = str []
or_empty (some null) = str []
or_empty (some v) = v

abbrev is_text_block : Value → Bool
is_text_block v = elim (get_member (codes "type") v) [
  | some (str s) ↦ text_eq s (codes "text")
  | _ ↦ false
]

-- `find(b => b.type === "text")?.text ?? ""`, where a block that is null throws.
unfoldable pub text_block : Values → Option Value
unfolding get_member
text_block no_values = some (str [])
text_block (element null vs) = none
text_block (element v vs) =
    if is_text_block v then some (or_empty (get_member (codes "text") v)) else text_block vs

-- `data.content?.find(...)`: a content that is no array throws.
unfoldable pub anthropic_text : Value → Option Value
unfolding text_block
anthropic_text null = none
anthropic_text v = elim (get_member (codes "content") v) [
  | none ↦ some (str [])
  | some null ↦ some (str [])
  | some (arr vs) ↦ text_block vs
  | some _ ↦ none
]

-- `data.message?.content ?? ""`
unfoldable pub ollama_text : Value → Option Value
unfolding get_member
ollama_text null = none
ollama_text v = elim (get_member (codes "message") v) [
  | none ↦ some (str [])
  | some null ↦ some (str [])
  | some m ↦ some (or_empty (get_member (codes "content") m))
]

abbrev read_body : (Value → Option Value) → Option LlmResponse → Option Value
read_body read none = none
read_body read (some res) = if res.ok then elim res.body [ none ↦ none | some v ↦ read v ] else none

module _ (env : Environment) (send : LlmRequest → Option LlmResponse) where
  unfoldable pub call_resolved : LlmCallParams → ResolvedLlm → Option Value
  unfolding anthropic_request ollama_request anthropic_text ollama_text
  call_resolved params cfg = elim cfg.provider [
    | anthropic ↦ read_body anthropic_text (send (anthropic_request cfg params))
    | ollama ↦ read_body ollama_text (send (ollama_request cfg params))
  ]

  -- `callLLM`; `none` is an error thrown. What is read as the answer's text is a value.
  unfoldable pub call_llm : LlmConfig → LlmCallParams → Option Value
  unfolding call_resolved resolve_llm_config
  call_llm cfg params = elim (resolve_llm_config env cfg) [
    | none ↦ none
    | some resolved ↦ call_resolved params resolved
  ]
