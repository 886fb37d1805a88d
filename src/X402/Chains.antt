-- ===== src/X402/Chains.antt =====
-- packages/core/src/constants.ts: the supported chains and the tokens that sign by EIP-3009.
use agentct.Base.{
  ℕ, Text, codes, lower, includes, text_eq, lookup, Option, List, [], ◌∷◌, map, if◌then◌else◌,
}

pub record Eip712Domain : Type 0 where
  pub name : Text
  pub version : Text
  pub chain_id : ℕ
  pub verifying_contract : Text

-- The viem chain object is left out.
pub record ChainConfig : Type 0 where
  pub caip2 : Text
  pub usdc : Text
  pub usdc_domain : Eip712Domain
  pub default_rpc_url : Text

abbrev pub base_sepolia : ChainConfig
base_sepolia = record {
  caip2 = codes "eip155:84532";
  usdc = codes "0x036CbD53842c5426634e7929541eC2318f3dCF7e";
  usdc_domain = record {
    name = codes "USDC";
    version = codes "2";
    chain_id = 84532;
    verifying_contract = codes "0x036CbD53842c5426634e7929541eC2318f3dCF7e";
  };
  default_rpc_url = codes "https://sepolia.base.org";
}

abbrev pub base_mainnet : ChainConfig
base_mainnet = record {
  caip2 = codes "eip155:8453";
  usdc = codes "0x833589fCD6eDb6E08f4c7C32D4f71b54bdA02913";
  usdc_domain = record {
    name = codes "USD Coin";
    version = codes "2";
    chain_id = 8453;
    verifying_contract = codes "0x833589fCD6eDb6E08f4c7C32D4f71b54bdA02913";
  };
  default_rpc_url = codes "https://mainnet.base.org";
}

unfoldable pub chains : List (Text × ChainConfig)
chains = (codes "eip155:84532", base_sepolia) ∷ (codes "eip155:8453", base_mainnet) ∷ []

-- `getChain`; `none` is the error for an unsupported chain.
unfoldable pub get_chain : Text → Option ChainConfig
unfolding chains lookup text_eq
get_chain caip2 = lookup caip2 chains

unfoldable pub eip3009_tokens : List Text
unfolding lower
eip3009_tokens = map lower (
    codes "0x833589fCD6eDb6E08f4c7C32D4f71b54bdA02913"
    ∷ codes "0x036CbD53842c5426634e7929541eC2318f3dCF7e"
    ∷ codes "0x60a3E35Cc302bFA44Cb288Bc5a4F316Fdb1adb42"
    ∷ [])

pub data AuthMethod : Type 0 where
  eip3009 permit2 : AuthMethod

unfoldable pub recommended_auth_method : Text → AuthMethod
unfolding eip3009_tokens includes lower
recommended_auth_method token = if includes eip3009_tokens (lower token) then eip3009 else permit2
