-- ===== src/Http/Serve.antt =====
-- The order in which a request passes a service (packages/shared/http.mjs).
use stablecoin_treasury.Prelude.{
  ℕ, Bool, not, ◌&&◌, Option, none, some, List, [], ◌∷◌, if◌then◌else◌,
}
use stablecoin_treasury.Prelude.Strings.{Text, text_eq}
use stablecoin_treasury.Prelude.Outcome.{Outcome, ok, err}
use stablecoin_treasury.Http.Routing.{
  Runtime, HttpError, internal_auth_required, Route, HttpRequest, match_route, read_json,
  tenant_id_from_headers, verify_internal_request,
}

-- The configuration of a service.
pub record ServiceConfig : Type 0 where
  pub routes : List Route
  pub internal_auth : Bool
  pub auth_required : Bool
  pub secret : Text
  pub tenant_header_required : Bool
  pub default_tenant : Text
  pub body_limit : ℕ
  pub rate_limit : Bool
  pub draining : Bool

-- What a service answers: a handler's result, or one of its own.
pub data Answer : Type 0 where
  no_content metrics_page draining_503 rate_limited_429 not_found_404 : Answer
  failed_with : HttpError → Answer
  handled : ℕ → List (Text × Text) → ℕ → Text → Answer

-- `validateInternalAuth` around the handlers of the routes that are not public, and the run of
-- the handler for a tenant.
unfoldable pub run_handler :
    Runtime → ServiceConfig → HttpRequest → Route → List (Text × Text) → ℕ → Text → Answer
unfolding verify_internal_request
run_handler rt s req r params body tenant =
    if (s.internal_auth && (not r.is_public && s.auth_required))
      && not (
          verify_internal_request rt s.secret req.method req.path body req.signature
            req.acting_user)
    then failed_with internal_auth_required
    else handled r.handler params body tenant

unfoldable pub with_tenant :
    Runtime
    → ServiceConfig
    → HttpRequest
    → Route
    → List (Text × Text)
    → ℕ
    → Outcome HttpError Text
    → Answer
unfolding run_handler
with_tenant rt s req r params body (err e) = failed_with e
with_tenant rt s req r params body (ok tenant) = run_handler rt s req r params body tenant

-- `dispatch`, for what `readJson` came to.
unfoldable pub dispatch_body :
    Runtime
    → ServiceConfig
    → HttpRequest
    → Route
    → List (Text × Text)
    → Outcome HttpError ℕ
    → Answer
unfolding with_tenant tenant_id_from_headers
dispatch_body rt s req r params (err e) = failed_with e
dispatch_body rt s req r params (ok body) = with_tenant rt s req r params body (
    tenant_id_from_headers s.default_tenant (s.tenant_header_required && not r.is_public)
      req.tenant_header)

unfoldable pub dispatch_matched :
    Runtime
    → ServiceConfig
    → HttpRequest
    → Outcome HttpError (Option (Route × List (Text × Text)))
    → Answer
unfolding dispatch_body read_json
dispatch_matched rt s req (err e) = failed_with e
dispatch_matched rt s req (ok none) = not_found_404
dispatch_matched rt s req (ok (some (r, params))) =
    dispatch_body rt s req r params (read_json rt s.body_limit req)

unfoldable pub is_preflight : Text → Bool
unfolding text_eq
is_preflight method = text_eq method (b'O' ∷ b'P' ∷ b'T' ∷ b'I' ∷ b'O' ∷ b'N' ∷ b'S' ∷ [])

unfoldable pub is_metrics : Text → Text → Bool
unfolding text_eq
is_metrics path method =
    text_eq path (b'/' ∷ b'm' ∷ b'e' ∷ b't' ∷ b'r' ∷ b'i' ∷ b'c' ∷ b's' ∷ [])
    && text_eq method (b'G' ∷ b'E' ∷ b'T' ∷ [])

unfoldable pub is_health : Text → Bool
unfolding text_eq
is_health path = text_eq path (b'/' ∷ b'h' ∷ b'e' ∷ b'a' ∷ b'l' ∷ b't' ∷ b'h' ∷ [])

-- The request listener of `createJsonService`, without static files; `allowed` is what the rate
-- limiter says of the client.
unfoldable pub serve : Runtime → ServiceConfig → Bool → HttpRequest → Answer
unfolding match_route dispatch_matched is_preflight is_health is_metrics
serve rt s allowed req =
    if is_preflight req.method
    then no_content
    else if is_metrics req.path req.method
    then metrics_page
    else if s.draining && not (is_health req.path)
    then draining_503
    else if (s.rate_limit && not (is_health req.path)) && not allowed
    then rate_limited_429
    else dispatch_matched rt s req (match_route rt s.routes req.method req.path)
