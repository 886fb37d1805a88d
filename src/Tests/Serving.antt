-- ===== src/Tests/Serving.antt =====
-- A control plane with a token, and its limiter.
use agentct.Base.{
  ℕ, ◌+◌, ◌*◌, ◌≤◌, pos, Text, codes, lookup, insert, text_eq, true, false, none, some, List, [],
  ◌∷◌, ◌≡◌, refl, arith,
}
use agentct.Policy.Serde.{Json}
use agentct.Approvals.{Queue, PendingApproval}
use agentct.Server.Limiter.{RateLimitOptions, Hits, allow}
use agentct.Server.Limiter.Bounds.{admitted, budget, most, admitted_bound}
use agentct.Server.Requests.{HttpRequest}
use agentct.Server.Handler.{
  reply, resolved, ControlPlaneOptions, RateLimitChoice, Plane, Clock, Loose, failed, handle,
  routes,
}
use agentct.Server.Access.{Outsider, handle-unauthorized}
use agentct.Server.Resolving.{approval_path, answered, routes-resolve}
use agentct.Tests.Samples.{alice, payment, allowing, outside, config, new_guard, all_at}

abbrev two_a_second : RateLimitOptions
two_a_second = record { window_ms = 1000; max = 2 }

abbrev caller : Text
caller = codes "10.0.0.1"

-- An entry that runs out in the middle of the span.
abbrev hits : Hits
hits = (caller, record { count = 1; reset_at = 500 }) ∷ []

abbrev calls : List (Text × ℕ)
calls = (caller, 100) ∷ (caller, 400) ∷ (caller, 500) ∷ (caller, 600) ∷ (caller, 900) ∷ []

admitted_bound_example :
    (admitted two_a_second caller calls hits
      ≤ budget two_a_second caller (lookup caller hits) + most two_a_second caller)
    × (admitted two_a_second caller calls hits ≤ 2 * most two_a_second caller)
admitted_bound_example = admitted_bound two_a_second caller 0 calls hits (omega arith)

-- One of the first two and two of the last three are let through.
three_admitted : admitted two_a_second caller calls hits ≡ 3
unfolding admitted lookup allow text_eq insert
three_admitted = refl

abbrev json : Json
json = record { print = λ v. []; parse = λ t. none; int_of_other = λ v. none }

abbrev loose : Loose
loose v plane = (reply 400 failed, plane)

abbrev clock : Clock
clock = record { limited_at = 0; state_at = 0; counted_at = 0; guard_at = all_at 0 }

abbrev waiting : PendingApproval
waiting = record {
  id = codes "a-1";
  request = payment (pos 40) alice;
  decision = allowing;
  created_at = 0;
  expires_at = 300000;
}

abbrev queue : Queue
queue = record { pending = waiting ∷ []; timers = codes "a-1" ∷ []; answers = [] }

abbrev plane : Plane
plane = record { hits = []; guard = new_guard; queue = some queue }

abbrev post : HttpRequest
post = record {
  method = some (codes "POST");
  path = some (codes "/approvals/a-1/approve");
  remote = some caller;
  authorization = none;
  body = none;
}

abbrev opts : ControlPlaneOptions
opts = record { token = some (codes "secret"); rate_limit = RateLimitChoice.default }

handle-unauthorized_example :
    let (res, after) = handle outside config json loose clock post opts plane in
    Outsider res × (after.guard ≡ new_guard) × (after.queue ≡ some queue)
handle-unauthorized_example =
    handle-unauthorized outside config json loose clock opts post plane (codes "secret") refl
      (λ e. cc) (λ e. cc)

routes-resolve_example :
    let (res, after) =
      routes outside config json loose clock post (approval_path (codes "a-1") true) plane in
    (res ≡ reply 200 (resolved true))
    × (after ≡ record plane { queue = some (answered (codes "a-1") true queue) })
    × ((routes outside config json loose clock post (approval_path (codes "a-1") false) after).0
        ≡ reply 404 (resolved false))
unfolding text_eq
routes-resolve_example =
    routes-resolve outside config json loose clock post (codes "a-1") true queue plane false refl
      (λ e. cc) refl refl
