-- ===== src/Http/Gates.antt =====
-- What a request passes before a handler runs.
use stablecoin_treasury.Prelude.{
  ℕ, ◌≡◌, refl, ap, subst, ◌∙◌, ◌⊎◌, inl, inr, true, false, not, ◌&&◌, Option, none, some, List, [],
  ◌∷◌, ◌++◌, Bool-cases, All, Bool,
}
use stablecoin_treasury.Prelude.Strings.{Text, text_eq}
use stablecoin_treasury.Prelude.Outcome.{Outcome, ok, err}
use stablecoin_treasury.Http.Routing.{
  Runtime, HttpError, Route, HttpRequest, match_path, match_route, read_json,
  tenant_id_from_headers, verify_internal_request, or_next,
}
use stablecoin_treasury.Http.Serve.{
  ServiceConfig, handled, run_handler, with_tenant, dispatch_body, dispatch_matched, is_health,
  serve, is_preflight, is_metrics,
}

-- A route that a request does not match.
abbrev Misses : Runtime → Text → Text → Route → Type 0
Misses rt method path q =
    (text_eq q.method method ≡ false) ⊎ (match_path rt q.pattern path ≡ ok none)

-- A route of the list that a request matches with its parameters, and none before it.
abbrev pub FirstMatch : Runtime → List Route → Text → Text → Route → List (Text × Text) → Type 0
FirstMatch rt routes method path r params =
    (earlier : List Route) × (later : List Route) × (routes ≡ earlier ++ r ∷ later)
    × All (Misses rt method path) earlier
    × (text_eq r.method method ≡ true)
    × (match_path rt r.pattern path ≡ ok (some params))

first_here :
    (rt : Runtime) (q : Route) (rs : List Route) (method path : Text)
    (o : Outcome HttpError (Option (List (Text × Text)))) (r : Route) (params : List (Text × Text))
    → text_eq q.method method ≡ true
    → match_path rt q.pattern path ≡ o
    → or_next q o (match_route rt rs method path) ≡ ok (some (r, params))
    → (match_route rt rs method path ≡ ok (some (r, params))
        → FirstMatch rt rs method path r params)
    → FirstMatch rt (q ∷ rs) method path r params
first_here rt q rs method path (err e) r params hm ho h more = cc
first_here rt q rs method path (ok none) r params hm ho h more =
    let (earlier, later, same, missed, m, p) = more h in
    (q ∷ earlier, later, ap (λ l. q ∷ l) same, (inr ho, missed), m, p)
first_here rt q rs method path (ok (some ps)) r params hm ho h more =
    let here : q ≡ r = cc in
    let same : ps ≡ params = cc in
    (
      [],
      rs,
      ap (λ x. x ∷ rs) here,
      tt,
      subst (λ (x : Route). text_eq x.method method ≡ true) here hm,
      subst (λ (x : Route). match_path rt x.pattern path ≡ ok (some params)) here
          (ho ∙ ap (λ x. ok (some x)) same),
    )

pub match_route-FirstMatch :
    (rt : Runtime) (routes : List Route) (method path : Text) (r : Route)
    (params : List (Text × Text))
    → match_route rt routes method path ≡ ok (some (r, params))
    → FirstMatch rt routes method path r params
unfolding match_route
match_route-FirstMatch rt [] method path r params h = cc
match_route-FirstMatch rt (q ∷ rs) method path r params h =
    elim (Bool-cases (text_eq q.method method)) [
      | inr other ↦
          let (earlier, later, same, missed, m, p) =
            match_route-FirstMatch rt rs method path r params (rw other at h) in
          (q ∷ earlier, later, ap (λ l. q ∷ l) same, (inl other, missed), m, p)
      | inl own ↦
          first_here rt q rs method path (match_path rt q.pattern path) r params own refl
            (rw own at h) (λ k. match_route-FirstMatch rt rs method path r params k)
    ]

-- The gates of the handler of a route.
abbrev pub Gated :
    Runtime → ServiceConfig → HttpRequest → Route → ℕ → List (Text × Text) → ℕ → Text → Type 0
Gated rt s req r handler params body tenant =
    (r.handler ≡ handler)
    × (read_json rt s.body_limit req ≡ ok body)
    × (tenant_id_from_headers s.default_tenant (s.tenant_header_required && not r.is_public)
          req.tenant_header
        ≡ ok tenant)
    × (((s.internal_auth && (not r.is_public && s.auth_required))
          && not (
              verify_internal_request rt s.secret req.method req.path body req.signature
                req.acting_user))
        ≡ false)

handler-ran :
    (rt : Runtime) (s : ServiceConfig) (req : HttpRequest) (r : Route)
    (params params' : List (Text × Text)) (body body' : ℕ) (tenant tenant' : Text) (handler : ℕ)
    → run_handler rt s req r params body tenant ≡ handled handler params' body' tenant'
    → (((s.internal_auth && (not r.is_public && s.auth_required))
          && not (
              verify_internal_request rt s.secret req.method req.path body req.signature
                req.acting_user))
        ≡ false)
      × (r.handler ≡ handler)
      × (params ≡ params')
      × (body ≡ body')
      × (tenant ≡ tenant')
unfolding run_handler
handler-ran rt s req r params params' body body' tenant tenant' handler h =
    elim (Bool-cases (
      (s.internal_auth && (not r.is_public && s.auth_required))
      && not (
          verify_internal_request rt s.secret req.method req.path body req.signature
            req.acting_user))) [
              | inl refused ↦ cc (rw refused at h)
              | inr passed ↦
                  let same : handled r.handler params body tenant
                      ≡ handled handler params' body' tenant' =
                    rw passed at h in
                  (passed, cc, cc, cc, cc)
            ]

tenant_ran :
    (rt : Runtime) (s : ServiceConfig) (req : HttpRequest) (r : Route)
    (params params' : List (Text × Text)) (body body' : ℕ) (o : Outcome HttpError Text)
    (tenant : Text) (handler : ℕ)
    → with_tenant rt s req r params body o ≡ handled handler params' body' tenant
    → (o ≡ ok tenant)
      × (((s.internal_auth && (not r.is_public && s.auth_required))
            && not (
                verify_internal_request rt s.secret req.method req.path body req.signature
                  req.acting_user))
          ≡ false)
      × (r.handler ≡ handler)
      × (params ≡ params')
      × (body ≡ body')
unfolding with_tenant
tenant_ran rt s req r params params' body body' (err e) tenant handler h = cc
tenant_ran rt s req r params params' body body' (ok t) tenant handler h =
    let g = handler-ran rt s req r params params' body body' t tenant handler h in
    (ap (λ x. ok x) g.4, g.0, g.1, g.2, g.3)

body_ran :
    (rt : Runtime) (s : ServiceConfig) (req : HttpRequest) (r : Route)
    (params params' : List (Text × Text)) (o : Outcome HttpError ℕ) (body : ℕ) (tenant : Text)
    (handler : ℕ)
    → read_json rt s.body_limit req ≡ o
    → dispatch_body rt s req r params o ≡ handled handler params' body tenant
    → Gated rt s req r handler params' body tenant × (params ≡ params')
unfolding dispatch_body
body_ran rt s req r params params' (err e) body tenant handler read h = cc
body_ran rt s req r params params' (ok b) body tenant handler read h =
    let g =
      tenant_ran rt s req r params params' b body
        (tenant_id_from_headers s.default_tenant (s.tenant_header_required && not r.is_public)
          req.tenant_header)
        tenant handler h in
    (
      (
        g.2,
        read ∙ ap (λ x. ok x) g.4,
        g.0,
        subst
            (λ x.
              ((s.internal_auth && (not r.is_public && s.auth_required))
                && not (
                    verify_internal_request rt s.secret req.method req.path x req.signature
                      req.acting_user))
              ≡ false)
            g.4 g.1,
      ),
      g.3,
    )

matched_ran :
    (rt : Runtime) (s : ServiceConfig) (req : HttpRequest)
    (o : Outcome HttpError (Option (Route × List (Text × Text)))) (params : List (Text × Text))
    (body : ℕ) (tenant : Text) (handler : ℕ)
    → match_route rt s.routes req.method req.path ≡ o
    → dispatch_matched rt s req o ≡ handled handler params body tenant
    → (r : Route) × FirstMatch rt s.routes req.method req.path r params
      × Gated rt s req r handler params body tenant
unfolding dispatch_matched
matched_ran rt s req (err e) params body tenant handler m h = cc
matched_ran rt s req (ok none) params body tenant handler m h = cc
matched_ran rt s req (ok (some (r, ps))) params body tenant handler m h =
    let g =
      body_ran rt s req r ps params (read_json rt s.body_limit req) body tenant handler refl h in
    (
      r,
      subst (λ x. FirstMatch rt s.routes req.method req.path r x) g.1
          (match_route-FirstMatch rt s.routes req.method req.path r ps m),
      g.0,
    )

-- The tests that a request passes before a handler runs.
pub serve-Gated :
    (rt : Runtime) (s : ServiceConfig) (allowed : Bool) (req : HttpRequest) (handler : ℕ)
    (params : List (Text × Text)) (body : ℕ) (tenant : Text)
    → serve rt s allowed req ≡ handled handler params body tenant
    → ((s.draining && not (is_health req.path)) ≡ false)
      × (((s.rate_limit && not (is_health req.path)) && not allowed) ≡ false)
      × ((r : Route) × FirstMatch rt s.routes req.method req.path r params
          × Gated rt s req r handler params body tenant)
unfolding serve
serve-Gated rt s allowed req handler params body tenant h =
    elim (Bool-cases (is_preflight req.method)) [
      | inl e ↦ cc (rw e at h)
      | inr e0 ↦ elim (Bool-cases (is_metrics req.path req.method)) [
        | inl e ↦ cc (rw (e0, e) at h)
        | inr e1 ↦ elim (Bool-cases (s.draining && not (is_health req.path))) [
          | inl e ↦ cc (rw (e0, e1, e) at h)
          | inr e2 ↦ elim (Bool-cases ((s.rate_limit && not (is_health req.path)) && not allowed)) [
            | inl e ↦ cc (rw (e0, e1, e2, e) at h)
            | inr e3 ↦ (
              e2,
              e3,
              matched_ran rt s req (match_route rt s.routes req.method req.path) params body tenant
                  handler refl (rw (e0, e1, e2, e3) at h),
            )
          ]
        ]
      ]
    ]
