-- ===== src/Http/Entry.antt =====
-- What a request is that reaches a handler.
use stablecoin_treasury.Prelude.{
  ℕ, ◌≤◌, ◌≡◌, ◌⊎◌, false, not, Option, none, some, List, [], ◌∷◌, ◌++◌, ◌<◌, ◌&&◌,
}
use stablecoin_treasury.Prelude.Strings.{Text}
use stablecoin_treasury.Http.Limits.{RateBucket}
use stablecoin_treasury.Http.Serve.{ServiceConfig}
use stablecoin_treasury.Http.Gates.{FirstMatch}
use stablecoin_treasury.Http.Routing.{Runtime, HttpRequest, Route, hex_bytes}
use stablecoin_treasury.Http.Bodies.{BodyOf}
use stablecoin_treasury.Http.Tenants.{TenantOf}

-- A request to a route whose handlers are not behind internal authentication, or one with the
-- HMAC of its method, path, body and acting user under the service's secret.
abbrev pub SignedBy : Runtime → ServiceConfig → HttpRequest → Route → ℕ → Type 0
SignedBy rt s req r body =
    ((s.internal_auth && (not r.is_public && s.auth_required)) ≡ false)
    ⊎ (hex_bytes req.signature
        ≡ hex_bytes (
            rt.hmac s.secret (
              req.method
              ++ b'|' ∷ (req.path ++ b'|' ∷ (rt.stringify body ++ b'|' ∷ req.acting_user)))))

-- The rate limiter has a request left for a client: its window is new or over and the limit is
-- positive, or the window lasts and has tokens.
abbrev pub InRate : ℕ → ℕ → Option RateBucket → Type 0
InRate limit now none = 0 < limit
InRate limit now (some b) =
    ((b.reset_at ≤ now) × (0 < limit)) ⊎ ((now < b.reset_at) × (0 < b.tokens))

abbrev pub HealthPath : Text → Type 0
HealthPath path = path ≡ b'/' ∷ b'h' ∷ b'e' ∷ b'a' ∷ b'l' ∷ b't' ∷ b'h' ∷ []

-- What a request is that a handler runs for, by its route.
abbrev pub Entered :
    Runtime → ServiceConfig → HttpRequest → Route → ℕ → List (Text × Text) → ℕ → Text → Type 0
Entered rt s req r handler params body tenant =
    FirstMatch rt s.routes req.method req.path r params
    × (r.handler ≡ handler)
    × BodyOf rt s.body_limit req body
    × TenantOf s.default_tenant (s.tenant_header_required && not r.is_public) req.tenant_header
        tenant
    × SignedBy rt s req r body
