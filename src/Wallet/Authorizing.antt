-- ===== src/Wallet/Authorizing.antt =====
-- The authorizations of one wallet: no nonce is signed twice while it is outstanding.
use agentct.Base.{
  ℕ, Text, text_eq, text_eq_refl, lower, all, or_else, or_true, Bool, true, false, not, Option,
  Option-cases, none, some, List, [], ◌∷◌, ◌≡◌, ◌≢◌, refl, ap, sym, inl, inr, arith,
}
use agentct.Types.{PaymentRequest, Authorization}
use agentct.X402.Chains.{get_chain}
use agentct.X402.Nonces.{Tracker, has, add, reserve}
use agentct.X402.Nonces.Outstanding.{reserve_lem, has-add, has-release, has_same}
use agentct.X402.Eip3009.{
  Account, SignedAuthorization, signed, SignOptions, next_nonce, transfer_for,
  sign_eip3009_authorization, sign_on, sign_with, signed_transfer,
}
use agentct.Wallet.{
  Wallet, Credentials, ensure_signer, authorize_with, authorize_payment, release_nonce,
}

-- Signing through a tracker reserves the nonce that it signs, or leaves the tracker as it is.
abbrev tracked : Tracker → SignOptions
tracked t = record { valid_for_seconds = none; nonce = none; tracker = some t }

next_nonce-tracked :
    (t : Tracker) (draws : List Text) {n : Text} {o : Option Tracker}
    → next_nonce (tracked t) draws ≡ some (n, o)
    → (has n t ≡ false) × (o ≡ some (add n t))
unfolding next_nonce
next_nonce-tracked t draws {n} {o} h = elim (Option-cases (reserve none draws t)) [
  | inl e ↦ ground arith
  | inr ((m, t'), e) ↦ let found = reserve_lem none draws t e in ground (arith, found.0, found.1)
]

sign-tracked :
    (account : Account) (req : PaymentRequest) (now : ℕ) (draws : List Text) (t : Tracker)
    (n : Text)
    → has n t ≡ true
    → has n (or_else (sign_eip3009_authorization account req now (tracked t) draws).1 t) ≡ true
unfolding sign_eip3009_authorization sign_on sign_with
sign-tracked account req now draws t n old = elim (Option-cases (get_chain req.chain)) [
  | inl e ↦ rw e old
  | inr (chain, e) ↦ elim (Option-cases (next_nonce (tracked t) draws)) [
    | inl e2 ↦ rw (e, e2) old
    | inr ((m, u), e2) ↦
        let kept = (next_nonce-tracked t draws e2).1 in rw (e, e2, kept, has-add m n t, old) refl
  ]
]

authorize_with-has :
    (req : PaymentRequest) (now : ℕ) (draws : List Text) (p : Option Account × Wallet) (n : Text)
    → has n p.1.nonces ≡ true
    → has n (authorize_with req now draws p).1.nonces ≡ true
unfolding authorize_with
authorize_with-has req now draws (none, w) n old = old
authorize_with-has req now draws (some account, w) n old =
    sign-tracked account req now draws w.nonces n old

-- What was signed was not outstanding, and is now.
authorize_with-signed :
    (req : PaymentRequest) (now : ℕ) (draws : List Text) (p : Option Account × Wallet)
    {s : SignedAuthorization} {w : Wallet}
    → authorize_with req now draws p ≡ (signed s, w)
    → (has s.authorization.nonce p.1.nonces ≡ false) × (has s.authorization.nonce w.nonces ≡ true)
unfolding authorize_with transfer_for
authorize_with-signed req now draws (none, v) h = ground arith
authorize_with-signed req now draws (some account, v) {s} {w} h =
    let result = sign_eip3009_authorization account req now (tracked v.nonces) draws in
    let (n, next, made) =
      signed_transfer account req now (tracked v.nonces) draws {s = s} {t = result.1}
        (ground arith) in
    let found = next_nonce-tracked v.nonces draws next in
    let named : s.authorization.nonce ≡ n = ap (λ (a : Authorization). a.nonce) made in
    let after : w.nonces ≡ add n v.nonces = ground (arith, found.1) in
    (
      rw named found.0,
      rw (named, after, has-add n n v.nonces, text_eq_refl (lower n)) (or_true (has n v.nonces)),
    )

-- What an adapter is asked to do.
pub data Act : Type 0 where
  authorizing : PaymentRequest → ℕ → List Text → Act
  releasing : Text → Act

-- Whether an act leaves a nonce outstanding.
abbrev pub spares : Text → Act → Bool
spares n (authorizing _ _ _) = true
spares n (releasing m) = not (text_eq (lower m) (lower n))

module _ (client : Text → Text → Account) (c : Credentials) where
  unfoldable pub act : Act → Wallet → Wallet
  unfolding authorize_payment release_nonce
  act (authorizing req now draws) w = (authorize_payment client c req now draws w).1
  act (releasing nonce) w = release_nonce nonce w

  unfoldable pub acts : List Act → Wallet → Wallet
  unfolding act
  acts [] w = w
  acts (a ∷ rest) w = acts rest (act a w)

  ensure_signer-nonces : (w : Wallet) → (ensure_signer client c w).1.nonces ≡ w.nonces
  unfolding ensure_signer
  ensure_signer-nonces w = ground arith

  act-has :
      (a : Act) (w : Wallet) (n : Text)
      → spares n a ≡ true
      → has n w.nonces ≡ true
      → has n (act a w).nonces ≡ true
  unfolding act
  act-has (authorizing req now draws) w n s old =
      authorize_with-has req now draws (ensure_signer client c w) n
        (rw (ensure_signer-nonces w) old)
  act-has (releasing m) w n s old = rw (has-release m n w.nonces, old, s) refl

  acts-has :
      (todo : List Act) (w : Wallet) (n : Text)
      → all (spares n) todo ≡ true
      → has n w.nonces ≡ true
      → has n (acts todo w).nonces ≡ true
  unfolding acts
  acts-has [] w n s old = old
  acts-has (a ∷ rest) w n s old =
      acts-has rest (act a w) n (ground arith) (act-has a w n (ground arith) old)

  -- A wallet never signs two authorizations with one nonce, in any spelling of its letters, as long as
  -- that nonce is not released in between, whatever else is authorized or released there.
  pub authorize-authorize-ne :
      (w w1 w2 : Wallet) (req req' : PaymentRequest) (now now' : ℕ) (draws draws' : List Text)
      (between : List Act) (s s' : SignedAuthorization)
      → authorize_payment client c req now draws w ≡ (signed s, w1)
      → all (spares s.authorization.nonce) between ≡ true
      → authorize_payment client c req' now' draws' (acts between w1) ≡ (signed s', w2)
      → lower s.authorization.nonce ≢ lower s'.authorization.nonce
  unfolding authorize_payment
  authorize-authorize-ne w w1 w2 req req' now now' draws draws' between s s' one spared two same =
      let held = (authorize_with-signed req now draws (ensure_signer client c w) one).1 in
      let still = acts-has between w1 s.authorization.nonce spared held in
      let new =
        (authorize_with-signed req' now' draws' (ensure_signer client c (acts between w1)) two).0 in
      let fresh : has s'.authorization.nonce (acts between w1).nonces ≡ false =
        rw (sym (ensure_signer-nonces (acts between w1))) new in
      let moved = has_same s'.authorization.nonce s.authorization.nonce _ same still in cc
