-- ===== src/Wallet.antt =====
-- packages/core/src/adapters: wallets that sign payments. ViemAdapter holds its account; CircleAdapter
-- and PrivyAdapter get theirs from two credentials on the first use and keep it. The provider's
-- client is a parameter.
pub mod Authorizing
use agentct.Base.{
  ℕ, Text, is_empty, or_else, Bool, true, false, ◌||◌, Option, none, some, List, if◌then◌else◌,
}
use agentct.Types.{PaymentRequest}
use agentct.X402.Nonces.{Tracker}
use agentct.X402.Nonces
use agentct.X402.Eip3009.{
  Account, SignedAuthorization, Signing, threw, SignOptions, sign_eip3009_authorization,
}
use agentct.X402.Permit2.{
  Permit2Library, Permit2Domain, Permit2Authorization, Permit2SignOptions,
  SignedPermit2Authorization, sign_permit2_authorization,
}

-- The fields of an adapter that change: the cached signer and the outstanding nonces.
pub record Wallet : Type 0 where
  pub signer : Option Account
  pub nonces : Tracker

-- Two credentials: from the configuration, or else from the environment.
pub record Credentials : Type 0 where
  pub key : Option Text
  pub secret : Option Text
  pub env_key : Option Text
  pub env_secret : Option Text

-- `a ?? b`
abbrev either : Option Text → Option Text → Option Text
either (some a) b = some a
either none b = b

-- A credential that is set and not empty.
abbrev given : Option Text → Option Text
given none = none
given (some t) = if is_empty t then none else some t

-- The provider's client made from the two credentials, as an account that signs with it.
unfoldable pub connect : (Text → Text → Account) → Credentials → Option Account
connect client c = elim (given (either c.key c.env_key)) [
  | none ↦ none
  | some key ↦ elim (given (either c.secret c.env_secret)) [
    | none ↦ none
    | some secret ↦ some (client key secret)
  ]
]

abbrev cached : Option Account → Wallet → Option Account × Wallet
cached none w = (none, w)
cached (some account) w = (some account, record w { signer = some account })

-- `ensureSigner`; `none` is an error thrown.
unfoldable pub ensure_signer :
    (Text → Text → Account) → Credentials → Wallet → Option Account × Wallet
unfolding connect
ensure_signer client c w = elim w.signer [
  | some account ↦ (some account, w)
  | none ↦ cached (connect client c) w
]

-- The signature of Circle's client: an answer with no signature is an error.
unfoldable pub circle_signature : Option Text → Option Text
circle_signature none = none
circle_signature (some sig) = if is_empty sig then none else some sig

unfoldable pub authorize_with :
    PaymentRequest → ℕ → List Text → Option Account × Wallet → Signing × Wallet
authorize_with req now draws (none, w) = (threw, w)
authorize_with req now draws (some account, w) =
    let opts : SignOptions = record {
      valid_for_seconds = none;
      nonce = none;
      tracker = some w.nonces;
    } in
    let (result, tracker) = sign_eip3009_authorization account req now opts draws in
    (result, record w { nonces = or_else tracker w.nonces })

-- `authorizePayment`, with the time in seconds and the nonces drawn.
unfoldable pub authorize_payment :
    (Text → Text → Account)
    → Credentials
    → PaymentRequest
    → ℕ
    → List Text
    → Wallet
    → Signing × Wallet
unfolding authorize_with ensure_signer
authorize_payment client c req now draws w = authorize_with req now draws (ensure_signer client c w)

unfoldable pub release_nonce : Text → Wallet → Wallet
release_nonce nonce w = record w { nonces = Nonces.release nonce w.nonces }
