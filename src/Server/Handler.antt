-- ===== src/Server/Handler.antt =====
-- The request handler of packages/server/src/index.ts. The platform's URL and JSON parsers are
-- parameters, and so is the answer to a body whose fields are of a type that the handler does not
-- check for; the guard's calls are those of its own modules.
use agentct.Base.{
  ℕ, Text, codes, text_eq, is_empty, or_else, Bool, true, false, not, ◌&&◌, ◌||◌, Option, none,
  some, List, [], ◌++◌, if◌then◌else◌,
}
use agentct.Base.Js.{Value}
use agentct.Types.{PolicyDecision}
use agentct.Policy.Serde.{Json}
use agentct.Server.Requests.{
  HttpRequest, approval_route, Parsed, payment, thrown, ill_typed, parse_body,
}
use agentct.Breaker
use agentct.Breaker.{Breaker, CircuitState, Counts}
use agentct.Approvals
use agentct.Approvals.{Queue, PendingApproval}
use agentct.Analytics.{AnalyticsReport}
use agentct.Analytics
use agentct.Guard.State.{Outside, GuardConfig, Guard, Instants}
use agentct.Guard.Evaluation.{evaluate}
use agentct.Server.Limiter.{RateLimitOptions, Hits, allow}

pub data Body : Type 0 where
  healthy rate_limited unauthorized not_found failed : Body
  decided : PolicyDecision → Body
  pending : List PendingApproval → Body
  resolved : Bool → Body
  circuit : CircuitState → Counts → Body
  circuit_state : CircuitState → Body
  circuit_disabled : Body
  reported : AnalyticsReport → Body

pub record HttpResponse : Type 0 where
  pub status : ℕ
  pub body : Body

abbrev pub reply : ℕ → Body → HttpResponse
reply status body = record { status = status; body = body }

pub data RateLimitChoice : Type 0 where
  default off : RateLimitChoice
  limit : RateLimitOptions → RateLimitChoice

pub record ControlPlaneOptions : Type 0 where
  pub token : Option Text
  pub rate_limit : RateLimitChoice

-- What the handler works on: the limiter's map, the guard and its queue, if there is one.
pub record Plane : Type 0 where
  pub hits : Hits
  pub guard : Guard
  pub queue : Option Queue

pub record Clock : Type 0 where
  pub limited_at : ℕ
  pub state_at : ℕ
  pub counted_at : ℕ
  pub guard_at : Instants

-- The limiter that `createControlPlaneHandler` makes.
unfoldable pub limiter_of : RateLimitChoice → Option RateLimitOptions
limiter_of RateLimitChoice.off = none
limiter_of RateLimitChoice.default = some (record { window_ms = 60000; max = 60 })
limiter_of (RateLimitChoice.limit opts) = some opts

-- `limiter && !limiter.allow(...)`, turned round.
unfoldable pub admit : Option RateLimitOptions → Option Text → ℕ → Hits → Bool × Hits
unfolding allow
admit none remote now hits = (true, hits)
admit (some opts) remote now hits = allow opts (or_else remote (codes "unknown")) now hits

abbrev bears : Text → Option Text → Bool
bears token none = false
bears token (some header) = text_eq header (codes "Bearer " ++ token)

-- An empty token is none.
unfoldable pub authorized : Option Text → Option Text → Bool
authorized none header = true
authorized (some token) header = is_empty token || bears token header

-- `method === m && path === p`, with the method GET where there is none.
abbrev pub is : HttpRequest → Text → Text → Text → Bool
is req method path wanted = text_eq (or_else req.method (codes "GET")) method && text_eq path wanted

-- The answer to fields of another type, and what becomes of the state, is a parameter.
abbrev pub Loose : Type 0
Loose = Value → Plane → HttpResponse × Plane

module _ (out : Outside) (cfg : GuardConfig) where
  unfoldable pub evaluate_route : Loose → Clock → Parsed → Plane → HttpResponse × Plane
  evaluate_route loose clock thrown plane = (reply 400 failed, plane)
  evaluate_route loose clock (ill_typed v) plane = loose v plane
  evaluate_route loose clock (payment req) plane =
      let (decision, guard) = evaluate out cfg plane.guard req clock.guard_at in
      (reply 200 (decided decision), record plane { guard = guard })

  unfoldable pub approvals_route : Plane → HttpResponse
  approvals_route plane = elim plane.queue [
    | none ↦ reply 200 (pending [])
    | some q ↦ reply 200 (pending (Approvals.list q))
  ]

  abbrev resolution : Bool × Queue → Plane → HttpResponse × Plane
  resolution (done, q) plane =
      (reply (if done then 200 else 404) (resolved done), record plane { queue = some q })

  unfoldable pub resolve_route : Text × Bool → Plane → HttpResponse × Plane
  resolve_route (id, approve) plane = elim plane.queue [
    | none ↦ (reply 404 (resolved false), plane)
    | some q ↦ resolution (Approvals.resolve id approve q) plane
  ]

  unfoldable pub breaker_route : Clock → Plane → HttpResponse × Plane
  breaker_route clock plane = elim cfg.circuit [
    | none ↦ (reply 200 circuit_disabled, plane)
    | some c ↦
        let (state, b) = Breaker.state c clock.state_at plane.guard.breaker in
        let (counts, b') = Breaker.counts c clock.counted_at b in
        (
          reply 200 (circuit state counts),
          record plane { guard = record (plane.guard) { breaker = b' } },
        )
  ]

  unfoldable pub reset_route : Clock → Plane → HttpResponse × Plane
  reset_route clock plane = elim cfg.circuit [
    | none ↦ (reply 200 circuit_disabled, plane)
    | some c ↦
        let (state, b) = Breaker.state c clock.state_at (Breaker.reset plane.guard.breaker) in
        (
          reply 200 (circuit_state state),
          record plane { guard = record (plane.guard) { breaker = b } },
        )
  ]

  module _ (json : Json) (loose : Loose) (clock : Clock) (req : HttpRequest) where
    unfoldable pub other_routes : Text → Plane → HttpResponse × Plane
    unfolding breaker_route reset_route
    other_routes path plane =
        if is req (codes "GET") path (codes "/breaker")
        then breaker_route clock plane
        else if is req (codes "POST") path (codes "/breaker/reset")
        then reset_route clock plane
        else if is req (codes "GET") path (codes "/report")
        then (reply 200 (reported (Analytics.report out.floats plane.guard.log none)), plane)
        else (reply 404 not_found, plane)

    unfoldable pub approval_or : Option (Text × Bool) → Text → Plane → HttpResponse × Plane
    unfolding other_routes resolve_route
    approval_or none path plane = other_routes path plane
    approval_or (some r) path plane = resolve_route r plane

    -- The routes behind the limiter and the token.
    unfoldable pub routes : Text → Plane → HttpResponse × Plane
    unfolding evaluate_route approvals_route approval_or
    routes path plane =
        if is req (codes "POST") path (codes "/evaluate")
        then evaluate_route loose clock (parse_body json cfg.agent_id req.body) plane
        else if is req (codes "GET") path (codes "/approvals")
        then (approvals_route plane, plane)
        else approval_or
            (if text_eq (or_else req.method (codes "GET")) (codes "POST")
              then approval_route path
              else none)
            path plane

    unfoldable pub guarded_routes :
        ControlPlaneOptions → Text → Bool × Hits → Plane → HttpResponse × Plane
    unfolding routes authorized
    guarded_routes opts path (ok, hits) plane =
        let plane' = record plane { hits = hits } in
        if not ok
        then (reply 429 rate_limited, plane')
        else if not (authorized opts.token req.authorization)
        then (reply 401 unauthorized, plane')
        else routes path plane'

    -- `createControlPlaneHandler` and `handle`: the response, and the state behind it. An error thrown is
    -- answered with 400.
    unfoldable pub handle : ControlPlaneOptions → Plane → HttpResponse × Plane
    unfolding guarded_routes admit limiter_of
    handle opts plane = elim req.path [
      | none ↦ (reply 400 failed, plane)
      | some path ↦
          if is req (codes "GET") path (codes "/health")
          then (reply 200 healthy, plane)
          else guarded_routes opts path
              (admit (limiter_of opts.rate_limit) req.remote clock.limited_at plane.hits) plane
    ]
