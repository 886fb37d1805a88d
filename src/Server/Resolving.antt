-- ===== src/Server/Resolving.antt =====
-- The route by which an operator answers an escalation.
use agentct.Base.{
  Text, codes, text_eq, or_else, starts_with, index_of, take, drop, any, all, filter, length, Bool,
  true, false, not, ◌==◌, Bool-cases, some, List, [], ◌∷◌, ◌++◌, ◌≡◌, ◌≢◌, refl, ap, ◌∙◌, inl, inr,
  arith, if◌then◌else◌,
}
use agentct.Policy.Serde.{Json}
use agentct.Approvals.{Queue, PendingApproval, is_slot, clear_timer, answer}
use agentct.Approvals
use agentct.Guard.State.{Outside, GuardConfig}
use agentct.Server.Requests.{HttpRequest, cut, verb_of, segment, approval_route}
use agentct.Server.Handler.{
  reply, resolved, Plane, Clock, Loose, resolve_route, approval_or, routes,
}

abbrev no_slash : Text → Bool
no_slash s = all (λ c. not (c == 47)) s

abbrev action : Bool → Text
action approve = if approve then codes "approve" else codes "deny"

abbrev pub approval_path : Text → Bool → Text
approval_path id approve = codes "/approvals/" ++ (id ++ 47 ∷ action approve)

index_of-slash :
    (id rest : Text) → no_slash id ≡ true → index_of 47 (id ++ 47 ∷ rest) ≡ some (length id)
unfolding index_of
index_of-slash [] rest h = refl
index_of-slash (c ∷ id) rest h = ground (arith, index_of-slash id rest)

take-prefix : (id rest : Text) → take (length id) (id ++ rest) ≡ id
take-prefix [] rest = refl
take-prefix (c ∷ id) rest = ap (λ (t : Text). c ∷ t) (take-prefix id rest)

drop-prefix : (id rest : Text) → drop (length id) (drop 1 (id ++ 47 ∷ rest)) ≡ rest
drop-prefix [] rest = refl
drop-prefix (c ∷ []) rest = refl
drop-prefix (c ∷ d ∷ id) rest = drop-prefix (d ∷ id) rest

segment-slash :
    (id rest : Text) → id ≢ [] → no_slash id ≡ true → segment (id ++ 47 ∷ rest) ≡ some (id, rest)
unfolding segment
segment-slash [] rest set h = absurd (set refl)
segment-slash (c ∷ id) rest set h =
    let whole = c ∷ id ++ 47 ∷ rest in
    ap (cut whole) (index_of-slash (c ∷ id) rest h)
    ∙ rw (take-prefix id (47 ∷ rest), drop-prefix (c ∷ id) rest) refl

approval_route-path :
    (id : Text) (approve : Bool)
    → id ≢ []
    → no_slash id ≡ true
    → approval_route (approval_path id approve) ≡ some (id, approve)
unfolding approval_route starts_with text_eq
approval_route-path id true set h = ap verb_of (segment-slash id (action true) set h)
approval_route-path id false set h = ap verb_of (segment-slash id (action false) set h)

deleted :
    (id : Text) (items : List PendingApproval)
    → any (is_slot id) (filter (λ item. not (is_slot id item)) items) ≡ false
deleted id [] = refl
deleted id (item ∷ items) = ground (arith, deleted id items)

-- The queue once an answer is in, and whether the id still waits in it.
abbrev pub answered : Text → Bool → Queue → Queue
answered id approve q =
    if any (is_slot id) q.pending then answer id approve (clear_timer id q) else q

abbrev pub waits : Text → Queue → Bool
waits id q = any (is_slot id) q.pending

answered-waits : (id : Text) (approve : Bool) (q : Queue) → waits id (answered id approve q) ≡ false
unfolding answer clear_timer
answered-waits id approve q = elim (Bool-cases (waits id q)) [
  | inl here ↦ rw here (deleted id q.pending)
  | inr gone ↦ rw gone gone
]

module _ (out : Outside) (cfg : GuardConfig) (json : Json) (loose : Loose) (clock : Clock) where
  resolve_route-answered :
      (id : Text) (approve : Bool) (q : Queue) (plane : Plane)
      → plane.queue ≡ some q
      → resolve_route out cfg (id, approve) plane ≡ (
        reply (if waits id q then 200 else 404) (resolved (waits id q)),
        record plane { queue = some (answered id approve q) },
      )
  unfolding resolve_route Approvals.resolve
  resolve_route-answered id approve q plane e = elim (Bool-cases (waits id q)) [
    | inl here ↦ rw (e, here) refl
    | inr gone ↦ rw (e, gone) refl
  ]

  routes-approval :
      (req : HttpRequest) (id : Text) (approve : Bool) (plane : Plane)
      → or_else req.method (codes "GET") ≡ codes "POST"
      → id ≢ []
      → no_slash id ≡ true
      → routes out cfg json loose clock req (approval_path id approve) plane
        ≡ resolve_route out cfg (id, approve) plane
  unfolding routes approval_or text_eq
  routes-approval req id approve plane post set h =
      rw (post, approval_route-path id approve set h) refl

  -- Behind the limiter and the token, POST /approvals/:id/approve or deny, for an id that is not empty
  -- and has no slash, answers 200 exactly when the id waits in the queue and 404 when it does not; a
  -- waiting approval is taken out and given the answer of the path, and nothing else of the guard or
  -- the queue changes. The same request again, or the opposite one, finds nothing: it answers 404.
  pub routes-resolve :
      (req : HttpRequest) (id : Text) (approve : Bool) (q : Queue) (plane : Plane) (again : Bool)
      → or_else req.method (codes "GET") ≡ codes "POST"
      → id ≢ []
      → no_slash id ≡ true
      → plane.queue ≡ some q
      → let (res, after) = routes out cfg json loose clock req (approval_path id approve) plane in
        (res ≡ reply (if waits id q then 200 else 404) (resolved (waits id q)))
        × (after ≡ record plane { queue = some (answered id approve q) })
        × ((routes out cfg json loose clock req (approval_path id again) after).0
            ≡ reply 404 (resolved false))
  routes-resolve req id approve q plane again post set h e =
      let first =
        routes-approval req id approve plane post set h
        ∙ resolve_route-answered id approve q plane e in
      let rest : Plane = record plane { queue = some (answered id approve q) } in
      let second =
        routes-approval req id again rest post set h
        ∙ resolve_route-answered id again (answered id approve q) rest refl in
      let gone = answered-waits id approve q in rw first (refl, refl, rw (second, gone) refl)
