-- ===== src/Tests/Signing.antt =====
-- A wallet whose tracker holds one nonce, and two payments that it signs.
use agentct.Base.{
  ◌+◌, ℕ, pos, Text, codes, lower, includes, text_eq, true, none, some, List, [], ◌∷◌, ◌≡◌, ◌≢◌,
  refl, arith,
}
use agentct.Types.{PaymentRequest, Authorization}
use agentct.X402.Chains.{get_chain}
use agentct.X402.Inspect
use agentct.X402.Nonces.{Tracker, has, reserve, release}
use agentct.X402.Nonces.Termination.{reserve_total}
use agentct.X402.Eip3009.{
  Account, SignedAuthorization, Signing, signed, SignOptions, sign_eip3009_authorization,
  inspect_authorization, inspect-sign,
}
use agentct.X402.Eip3009
use agentct.Wallet.{Wallet, Credentials, authorize_payment}
use agentct.Wallet.Authorizing.{Act, releasing, acts, authorize-authorize-ne}
use agentct.Tests.Samples.{alice, bob, payment}

-- One nonce is outstanding, and the source draws it first.
abbrev outstanding : Tracker
outstanding = codes "0xab" ∷ []

abbrev draws : List Text
draws = codes "0xAB" ∷ codes "0xcd" ∷ []

reserve_total_example : (n : Text) × (t : Tracker) × (reserve none draws outstanding ≡ some (n, t))
unfolding lower includes text_eq
reserve_total_example = reserve_total none draws outstanding (refl, (refl, tt)) (omega arith)

abbrev account : Account
account = record { address = bob; sign_transfer = λ domain a. some (a.nonce) }

abbrev tracked : SignOptions
tracked = record { valid_for_seconds = none; nonce = none; tracker = some outstanding }

abbrev req : PaymentRequest
req = payment (pos 40) alice

abbrev transfer : Text → ℕ → Authorization
transfer nonce now = record {
  from = bob;
  to = alice;
  value = pos 40;
  valid_after = 0;
  valid_before = now + 3600;
  nonce = nonce;
}

abbrev signed_cd : SignedAuthorization
signed_cd = record { signature = codes "0xcd"; authorization = transfer (codes "0xcd") 1000 }

inspect-sign_example :
    ((inspect_authorization signed_cd).from ≡ bob)
    × ((inspect_authorization signed_cd).recipient ≡ alice)
    × ((inspect_authorization signed_cd).amount ≡ pos 40)
    × ((inspect_authorization signed_cd).expires_at ≡ 4600)
    × (Inspect.authorization_matches (Eip3009.payload_of signed_cd) req ≡ true)
unfolding sign_eip3009_authorization get_chain reserve has includes lower inspect_authorization
inspect-sign_example =
    inspect-sign account req 1000 tracked draws signed_cd (some (codes "0xab" ∷ codes "0xcd" ∷ []))
      refl

-- Circle's wallet, which gets its signer on the first call.
abbrev client : Text → Text → Account
client key secret = account

abbrev credentials : Credentials
credentials = record {
  key = some (codes "key");
  secret = none;
  env_key = none;
  env_secret = some (codes "secret");
}

abbrev wallet : Wallet
wallet = record { signer = none; nonces = outstanding }

abbrev after_cd : Wallet
after_cd = record { signer = some account; nonces = codes "0xab" ∷ codes "0xcd" ∷ [] }

abbrev between : List Act
between = releasing (codes "0xAB") ∷ []

abbrev signed_ab : SignedAuthorization
signed_ab = record { signature = codes "0xAB"; authorization = transfer (codes "0xAB") 1001 }

abbrev after_ab : Wallet
after_ab = record { signer = some account; nonces = codes "0xcd" ∷ codes "0xab" ∷ [] }

authorize-authorize-ne_example : lower (codes "0xcd") ≢ lower (codes "0xAB")
unfolding authorize_payment sign_eip3009_authorization get_chain reserve has includes lower acts
    release text_eq
authorize-authorize-ne_example =
    authorize-authorize-ne client credentials wallet after_cd after_ab req req 1000 1001 draws
      (codes "0xCD" ∷ codes "0xAB" ∷ []) between signed_cd signed_ab refl refl refl
