-- ===== src/Server/Access.antt =====
-- Who may drive the control plane.
use agentct.Base.{
  Text, codes, text_eq, text_eq_iff, Bool, true, false, Option, Option-cases, Bool-cases, none,
  some, [], ◌∷◌, ◌++◌, ◌≡◌, ◌≢◌, refl, ap, ◌⊎◌, inl, inr,
}
use agentct.Policy.Serde.{Json}
use agentct.Guard.State.{Outside, GuardConfig}
use agentct.Server.Limiter.{Hits}
use agentct.Server.Requests.{HttpRequest}
use agentct.Server.Handler.{
  HttpResponse, reply, healthy, rate_limited, unauthorized, failed, ControlPlaneOptions, Plane,
  Clock, Loose, admit, limiter_of, authorized, is, guarded_routes, handle,
}

authorized-false :
    (token : Text) (header : Option Text)
    → token ≢ []
    → header ≢ some (codes "Bearer " ++ token)
    → authorized (some token) header ≡ false
unfolding authorized
authorized-false [] header set other = absurd (set refl)
authorized-false (c ∷ token) none set other = refl
authorized-false (c ∷ token) (some h) set other =
    elim (Bool-cases (text_eq h (codes "Bearer " ++ c ∷ token))) [
      | inl e ↦ absurd (other (ap some ((text_eq_iff h (codes "Bearer " ++ c ∷ token)).0 e)))
      | inr e ↦ e
    ]

-- The answers that reach no route.
abbrev pub Outsider : HttpResponse → Type 0
Outsider r =
    (r ≡ reply 200 healthy)
    ⊎ (r ≡ reply 400 failed)
    ⊎ (r ≡ reply 429 rate_limited)
    ⊎ (r ≡ reply 401 unauthorized)

module _ (out : Outside) (cfg : GuardConfig) (json : Json) (loose : Loose) (clock : Clock) where
  refused :
      (opts : ControlPlaneOptions) (req : HttpRequest) (path : Text) (p : Bool × Hits)
      (plane : Plane)
      → authorized opts.token req.authorization ≡ false
      → let (res, after) = guarded_routes out cfg json loose clock req opts path p plane in
        Outsider res × (after.guard ≡ plane.guard) × (after.queue ≡ plane.queue)
  unfolding guarded_routes
  refused opts req path (false, hits) plane denied = (inr (inr (inl refl)), refl, refl)
  refused opts req path (true, hits) plane denied = rw denied (inr (inr (inr refl)), refl, refl)

  -- Where a token is set and not empty, a request without the header that bears it reaches no route:
  -- it is answered by the health check, as a bad URL, as over the limit, or as unauthorized, and the
  -- guard and the queue of approvals stay as they are.
  pub handle-unauthorized :
      (opts : ControlPlaneOptions) (req : HttpRequest) (plane : Plane) (token : Text)
      → opts.token ≡ some token
      → token ≢ []
      → req.authorization ≢ some (codes "Bearer " ++ token)
      → let (res, after) = handle out cfg json loose clock req opts plane in
        Outsider res × (after.guard ≡ plane.guard) × (after.queue ≡ plane.queue)
  unfolding handle
  handle-unauthorized opts req plane token e set other =
      let denied : authorized opts.token req.authorization ≡ false =
        rw e (authorized-false token req.authorization set other) in
      elim (Option-cases req.path) [
        | inl bad ↦ rw bad (inr (inl refl), refl, refl)
        | inr (path, named) ↦ elim (Bool-cases (is req (codes "GET") path (codes "/health"))) [
          | inl health ↦ rw (named, health) (inl refl, refl, refl)
          | inr rest ↦
              rw (named, rest)
                (refused opts req path
                  (admit (limiter_of opts.rate_limit) req.remote clock.limited_at plane.hits) plane
                  denied)
        ]
      ]
