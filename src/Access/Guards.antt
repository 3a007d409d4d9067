-- ===== src/Access/Guards.antt =====
-- The guards of routes (packages/shared/auth.mjs): authentication, the CSRF token of cookie
-- requests, and permissions. A handler works on the table of sessions and has a result.
use stablecoin_treasury.Prelude.{
  ℕ, Bool, true, false, not, ◌&&◌, ◌||◌, Option, none, some, List, [], ◌∷◌, ◌==◌, if◌then◌else◌,
  any,
}
use stablecoin_treasury.Prelude.Strings.{Text, text_eq, starts_with, includes, slice, is_empty}
use stablecoin_treasury.Prelude.Outcome.{Outcome, err}
use stablecoin_treasury.Access.Cookies.{session_token_from_cookie}
use stablecoin_treasury.Access.Sessions.{Session, Identity, Ttl, SessionUser, validate_session}

pub data Method : Type 0 where
  get head options post put patch delete : Method

-- The parts of a request that the guards read.
pub record Request : Type 0 where
  pub method : Method
  pub authorization : Option Text
  pub cookie : Option Text
  pub csrf_header : Option Text

-- `authSource`
pub data AuthSource : Type 0 where
  from_cookie from_bearer from_nothing : AuthSource

-- `context.user`: of a session, the guest of an optional guard, or the system's where
-- authentication is not required.
pub data Actor : Type 0 where
  session_actor : SessionUser → AuthSource → Actor
  guest system : Actor

pub record Context : Type 0 where
  pub request : Request
  pub user : Actor
  pub tenant_id : ℕ

-- What the guards throw; `query_failed` stands for what the database refuses.
pub data GuardError : Type 0 where
  unauthorized csrf_invalid forbidden query_failed : GuardError

-- AUTH_REQUIRED, the limits of sessions, and DEFAULT_TENANT_ID.
pub record AuthConfig : Type 0 where
  pub auth_required : Bool
  pub ttl : Ttl
  pub default_tenant : ℕ

abbrev pub Result {ℓ} : Type ℓ → Type ℓ
Result B = Outcome GuardError B × List Session

abbrev pub Handler {ℓ} : Type ℓ → Type ℓ
Handler B = Context → List Session → Result B

-- "Bearer " and "session="
abbrev bearer_prefix : Text
bearer_prefix = b'B' ∷ b'e' ∷ b'a' ∷ b'r' ∷ b'e' ∷ b'r' ∷ 32 ∷ []

abbrev pub session_prefix : Text
session_prefix = b's' ∷ b'e' ∷ b's' ∷ b's' ∷ b'i' ∷ b'o' ∷ b'n' ∷ b'=' ∷ []

unfoldable pub has_prefix : Option Text → Bool
unfolding starts_with
has_prefix none = false
has_prefix (some header) = starts_with header bearer_prefix

unfoldable pub has_session_cookie : Option Text → Bool
unfolding includes
has_session_cookie none = false
has_session_cookie (some header) = includes header session_prefix

unfoldable pub auth_source : Request → AuthSource
unfolding has_prefix has_session_cookie
auth_source request =
    if has_session_cookie request.cookie
    then from_cookie
    else if has_prefix request.authorization
    then from_bearer
    else from_nothing

-- `authHeader.slice(7)`
unfoldable pub bearer_token : Option Text → Option Text
unfolding slice
bearer_token none = none
bearer_token (some header) = some (slice 7 header)

-- `extractToken`
unfoldable pub extract_token : Request → Option Text
unfolding has_prefix bearer_token session_token_from_cookie
extract_token request =
    if has_prefix request.authorization
    then bearer_token request.authorization
    else session_token_from_cookie request.cookie

-- `verifyCsrf`
unfoldable pub verify_csrf : SessionUser → Text → AuthSource → Bool
unfolding text_eq
verify_csrf user header from_bearer = true
verify_csrf user header from_cookie =
    if is_empty user.csrf_token then false else text_eq header user.csrf_token
verify_csrf user header from_nothing =
    if is_empty user.csrf_token then false else text_eq header user.csrf_token

-- The user of the token that a request brings.
unfoldable pub session_of :
    AuthConfig → Identity → ℕ → Option Text → List Session → Option SessionUser × List Session
unfolding validate_session
session_of cfg db now none sessions = (none, sessions)
session_of cfg db now (some token) sessions = validate_session cfg.ttl db now token sessions

-- `requireAuth` after the session was looked up.
unfoldable pub auth_decided {ℓ} :
    {B : Type ℓ}
    → AuthConfig
    → Bool
    → Handler B
    → Request
    → Option SessionUser
    → List Session
    → Result B
auth_decided cfg optional handler request (some u) sessions =
    handler
      (record {
        request = request;
        user = session_actor u (auth_source request);
        tenant_id = u.tenant_id;
      })
      sessions
auth_decided cfg optional handler request none sessions =
    if not cfg.auth_required
    then handler (record { request = request; user = system; tenant_id = cfg.default_tenant })
        sessions
    else if not optional
    then (err unauthorized, sessions)
    else handler (record { request = request; user = guest; tenant_id = cfg.default_tenant })
        sessions

-- `requireAuth`
unfoldable pub require_auth {ℓ} :
    {B : Type ℓ} → AuthConfig → Identity → ℕ → Bool → Handler B → Request → List Session → Result B
unfolding session_of auth_decided
require_auth cfg db now optional handler request sessions =
    let (user, rows) = session_of cfg db now (extract_token request) sessions in
    auth_decided cfg optional handler request user rows

-- `isMutation`
abbrev pub is_mutation : Method → Bool
is_mutation get = false
is_mutation head = false
is_mutation options = false
is_mutation post = true
is_mutation put = true
is_mutation patch = true
is_mutation delete = true

abbrev pub header_text : Option Text → Text
header_text none = []
header_text (some header) = header

-- Whether a request passes the check of `requireAuthWithCsrf`.
unfoldable pub csrf_ok : AuthConfig → Context → Actor → Bool
unfolding verify_csrf
csrf_ok cfg ctx (session_actor u from_cookie) =
    not (cfg.auth_required && is_mutation ctx.request.method)
    || verify_csrf u (header_text ctx.request.csrf_header) from_cookie
csrf_ok cfg ctx _ = true

-- `requireAuthWithCsrf`
unfoldable pub csrf_checked {ℓ} : {B : Type ℓ} → AuthConfig → Handler B → Handler B
unfolding csrf_ok
csrf_checked cfg handler ctx sessions =
    if csrf_ok cfg ctx ctx.user then handler ctx sessions else (err csrf_invalid, sessions)

unfoldable pub require_auth_with_csrf {ℓ} :
    {B : Type ℓ} → AuthConfig → Identity → ℕ → Bool → Handler B → Request → List Session → Result B
unfolding require_auth csrf_checked
require_auth_with_csrf cfg db now optional handler =
    require_auth cfg db now optional (csrf_checked cfg handler)

-- `hasPermission`: a role of the user, in the tenant, that has the permission.
unfoldable pub has_permission : AuthConfig → Identity → ℕ → ℕ → Text → Bool
unfolding text_eq
has_permission cfg db user_id tenant_id permission =
    if not cfg.auth_required
    then true
    else any
        (λ ur.
          ur.0 == user_id
          && (any (λ rp. rp.0 == ur.1 && text_eq rp.1 permission) db.role_permissions
              && any (λ r. r.id == ur.1 && r.tenant_id == tenant_id) db.roles))
        db.user_roles

-- `requirePermission` where authentication is required; "anon" is no id that the database takes.
unfoldable pub permitted {ℓ} :
    {B : Type ℓ} → AuthConfig → Identity → Text → Handler B → Actor → Handler B
unfolding has_permission
permitted cfg db permission handler (session_actor u source) ctx sessions =
    if has_permission cfg db u.user_id u.tenant_id permission
    then handler ctx sessions
    else (err forbidden, sessions)
permitted cfg db permission handler guest ctx sessions = (err query_failed, sessions)
permitted cfg db permission handler system ctx sessions = (err query_failed, sessions)

unfoldable pub permission_checked {ℓ} :
    {B : Type ℓ} → AuthConfig → Identity → Text → Handler B → Handler B
unfolding permitted
permission_checked cfg db permission handler ctx sessions =
    if not cfg.auth_required
    then handler ctx sessions
    else permitted cfg db permission handler ctx.user ctx sessions

-- `requirePermission`
unfoldable pub require_permission {ℓ} :
    {B : Type ℓ} → AuthConfig → Identity → ℕ → Text → Handler B → Request → List Session → Result B
unfolding require_auth_with_csrf permission_checked
require_permission cfg db now permission handler =
    require_auth_with_csrf cfg db now false (permission_checked cfg db permission handler)
