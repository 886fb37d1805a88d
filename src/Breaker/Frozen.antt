-- ===== src/Breaker/Frozen.antt =====
-- A tripped breaker: how long it stays open, whatever else is called.
use agentct.Base.{
  ℕ, ◌+◌, ◌*◌, ◌<◌, suc, Bool, true, false, none, some, List, [], ◌∷◌, ◌≡◌, ◌↔◌, ◌⊎◌, arith,
  if◌then◌else◌,
}
use agentct.Types.{Verdict}
use agentct.Breaker.{Config, Breaker, cooled, is_open, reset, record_event, counts}

-- Everything that the guard and its operator call, but for `reset`.
pub data Call : Type 0 where
  query : ℕ → Call
  look : ℕ → Call
  tell : Verdict → Bool → ℕ → Call

pub call : Config → Call → Breaker → Breaker
call cfg (Call.query now) b = (is_open cfg now b).1
call cfg (Call.look now) b = (counts cfg now b).1
call cfg (Call.tell verdict anomaly now) b = record_event cfg verdict anomaly now b

pub calls : Config → List Call → Breaker → Breaker
calls cfg [] b = b
calls cfg (c ∷ cs) b = calls cfg cs (call cfg c b)

-- No cooldown, or one of zero seconds.
abbrev pub IsManual : Config → Type 0
IsManual cfg = (cfg.cooldown_seconds ≡ none) ⊎ (cfg.cooldown_seconds ≡ some 0)

manual-cooled : (cfg : Config) (opened now : ℕ) → IsManual cfg → cooled cfg opened now ≡ false
unfolding cooled
manual-cooled cfg opened now m = ground arith

call-opened_at :
    (cfg : Config) (c : Call) (b : Breaker) (opened : ℕ)
    → IsManual cfg
    → b.opened_at ≡ some opened
    → (call cfg c b).opened_at ≡ some opened
unfolding call is_open counts record_event
call-opened_at cfg (Call.query now) b opened m e = ground (arith, manual-cooled cfg opened now m)
call-opened_at cfg (Call.look now) b opened m e = e
call-opened_at cfg (Call.tell verdict anomaly now) b opened m e = ground arith

pub is_open-manual :
    (cfg : Config) (b : Breaker) (opened now : ℕ)
    → IsManual cfg
    → b.opened_at ≡ some opened
    → is_open cfg now b ≡ (true, b)
unfolding is_open
is_open-manual cfg b opened now m e = ground (arith, manual-cooled cfg opened now m)

-- A breaker with no cooldown that has tripped is open after any calls other than `reset`, at any
-- time, and asking does not change it.
pub calls-is_open :
    (cfg : Config) (cs : List Call) (b : Breaker) (opened now : ℕ)
    → IsManual cfg
    → b.opened_at ≡ some opened
    → is_open cfg now (calls cfg cs b) ≡ (true, calls cfg cs b)
unfolding calls
calls-is_open cfg [] b opened now m e = is_open-manual cfg b opened now m e
calls-is_open cfg (c ∷ cs) b opened now m e =
    calls-is_open cfg cs (call cfg c b) opened now m (call-opened_at cfg c b opened m e)

-- A tripped breaker with a cooldown is open exactly until the cooldown has run out; the query that
-- finds it run out resets the breaker, and others leave it.
pub is_open-cooldown :
    (cfg : Config) (b : Breaker) (opened seconds now : ℕ)
    → b.opened_at ≡ some opened
    → cfg.cooldown_seconds ≡ some (suc seconds)
    → (((is_open cfg now b).0 ≡ true) ↔ (now < opened + suc seconds * 1000))
      × ((is_open cfg now b).1 ≡ (if (is_open cfg now b).0 then b else reset b))
unfolding is_open cooled
is_open-cooldown cfg b opened seconds now e c = ((ground arith, ground arith), ground arith)
