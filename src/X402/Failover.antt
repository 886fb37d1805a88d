-- ===== src/X402/Failover.antt =====
-- FailoverFacilitatorClient of packages/core/src/x402/facilitator.ts. A facilitator is a function that
-- returns `none` where the call throws.
use agentct.Base.{All, ap, ◌⊎◌, Option, none, some, List, [], ◌∷◌, ◌++◌, ◌≡◌, refl, inl, inr}

-- One round: an answer ends the loop, an exception goes on to what is left.
abbrev pub try_one {ℓ κ} :
    {C : Type ℓ} {R : Type κ} → C → Option R → Option R × List C → Option R × List C
try_one c none later = (later.0, c ∷ later.1)
try_one c (some r) later = (some r, c ∷ [])

-- `tryAll`: what the first client answers that does not throw; `none` where all throw. The second
-- part lists the clients that were called, in order.
unfoldable pub try_all {ℓ κ} :
    {C : Type ℓ} {R : Type κ} → (C → Option R) → List C → Option R × List C
try_all call [] = (none, [])
try_all call (c ∷ cs) = try_one c (call c) (try_all call cs)

-- All clients were called, and all threw.
pub record AllThrew {ℓ κ} {C : Type ℓ} {R : Type κ} (call : C → Option R) (cs : List C)
    (o : Option R × List C) : Type (ℓ ⊔ κ) where
  pub threw : All (λ c. call c ≡ none) cs
  pub failed : o.0 ≡ none
  pub called : o.1 ≡ cs

-- The first client that did not throw has answered, and none behind it was called.
pub record Answered {ℓ κ} {C : Type ℓ} {R : Type κ} (call : C → Option R) (cs : List C)
    (o : Option R × List C) : Type (ℓ ⊔ κ) where
  pub before : List C
  pub client : C
  pub rest : List C
  pub response : R
  pub order : cs ≡ before ++ client ∷ rest
  pub threw : All (λ c. call c ≡ none) before
  pub answers : call client ≡ some response
  pub result : o.0 ≡ some response
  pub called : o.1 ≡ before ++ client ∷ []

try_one-cases {ℓ κ} :
    {C : Type ℓ} {R : Type κ} (call : C → Option R) (c : C) (cs : List C) (r : Option R)
    (later : Option R × List C)
    → call c ≡ r
    → AllThrew call cs later ⊎ Answered call cs later
    → AllThrew call (c ∷ cs) (try_one c r later) ⊎ Answered call (c ∷ cs) (try_one c r later)
try_one-cases call c cs (some r) later e found = inr (record {
  before = [];
  client = c;
  rest = cs;
  response = r;
  order = refl;
  threw = tt;
  answers = e;
  result = refl;
  called = refl;
})
try_one-cases call c cs none later e (inl a) =
    inl (record { threw = (e, a.threw); failed = a.failed; called = ap (λ xs. c ∷ xs) a.called })
try_one-cases call c cs none later e (inr a) = inr (record {
  before = c ∷ a.before;
  client = a.client;
  rest = a.rest;
  response = a.response;
  order = ap (λ xs. c ∷ xs) a.order;
  threw = (e, a.threw);
  answers = a.answers;
  result = a.result;
  called = ap (λ xs. c ∷ xs) a.called;
})

-- The failover has two endings: all facilitators were called in order, all threw, and so does it; or
-- the first that did not throw has answered, whatever the answer, every one before it was called and
-- threw, and none behind it was called.
pub try_all-cases {ℓ κ} :
    {C : Type ℓ} {R : Type κ} (call : C → Option R) (cs : List C)
    → AllThrew call cs (try_all call cs) ⊎ Answered call cs (try_all call cs)
unfolding try_all
try_all-cases call [] = inl (record { threw = tt; failed = refl; called = refl })
try_all-cases call (c ∷ cs) =
    try_one-cases call c cs (call c) (try_all call cs) refl (try_all-cases call cs)
