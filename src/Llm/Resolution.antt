-- ===== src/Llm/Resolution.antt =====
-- When a language model is configured, and where its key goes.
use agentct.Base.{
  Text, codes, or_else, false, none, some, [], ◌∷◌, ◌++◌, ◌≡◌, ◌≢◌, ◌↔◌, ◌⊎◌, refl, arith,
}
use agentct.Llm.{
  anthropic, LlmConfig, LlmCallParams, Environment, ResolvedLlm, either, is_set, provider_of,
  resolve_with, resolve_llm_config, anthropic_request,
}

-- No language model is configured exactly when Anthropic is named without a key, or no provider is
-- named and there is neither a key nor an address of Ollama; a key or an address is the one of the
-- configuration, or else of the environment, and an empty one counts as missing.
pub resolve-none_iff :
    (env : Environment) (cfg : LlmConfig)
    → let keyed = is_set (either cfg.api_key env.anthropic_api_key) in
      let placed = is_set (either cfg.base_url env.ollama_base_url) in
      (resolve_llm_config env cfg ≡ none) ↔ (
        ((cfg.provider ≡ some anthropic) × (keyed ≡ false))
        ⊎ ((cfg.provider ≡ none) × (keyed ≡ false) × (placed ≡ false)))
unfolding resolve_llm_config resolve_with provider_of
resolve-none_iff env cfg = ground arith

-- Where no provider is named and there is a key, an address that is configured for Ollama does not
-- choose Ollama: the request goes to that address as one to Anthropic, and carries the key.
pub resolve-key_to_base_url :
    (env : Environment) (cfg : LlmConfig) (params : LlmCallParams) (key url : Text)
    → cfg.provider ≡ none
    → either cfg.api_key env.anthropic_api_key ≡ some key
    → key ≢ []
    → cfg.base_url ≡ some url
    → (r : ResolvedLlm) × (resolve_llm_config env cfg ≡ some r)
      × ((anthropic_request r params).url ≡ url ++ codes "/v1/messages")
      × ((anthropic_request r params).key ≡ some key)
unfolding resolve_llm_config resolve_with provider_of anthropic_request
resolve-key_to_base_url env cfg params [] url p k set b = absurd (set refl)
resolve-key_to_base_url env cfg params (c ∷ key) url p k set b = (
  record {
    provider = anthropic;
    api_key = some (c ∷ key);
    base_url = url;
    model = or_else cfg.model (codes "claude-haiku-4-5-20251001");
  },
  ground arith,
  refl,
  refl,
)
