-- ===== src/Access/GuardLaws.antt =====
-- What a request must bring to get past the guards of a route.
use stablecoin_treasury.Prelude.{ℕ, ◌≡◌, false, Option, none, some, List, ◌<◌, ◌≢◌, ◌⊎◌, [], In}
use stablecoin_treasury.Prelude.Strings.{Text, includes}
use stablecoin_treasury.Access.Sessions.{Session, Identity, SessionUser, Role}
use stablecoin_treasury.Access.Guards.{Request, extract_token, is_mutation, session_prefix}

-- The token of a request is that of a session which has not expired, the user's.
abbrev pub LiveSession : ℕ → Request → List Session → SessionUser → Type 0
LiveSession now request sessions u =
    (s : Session) × In s sessions
    × (extract_token request ≡ some s.token)
    × (now < s.expires_at)
    × (s.user_id ≡ u.user_id)
    × (s.csrf_token ≡ u.csrf_token)

-- A user has a role of the tenant which has the permission.
abbrev pub Granted : Identity → ℕ → ℕ → Text → Type 0
Granted db user tenant permission =
    (r : Role) × In r db.roles
    × (r.tenant_id ≡ tenant)
    × In (user, r.id) db.user_roles
    × In (r.id, permission) db.role_permissions

-- No header of cookies has one of a session.
abbrev pub NoSessionCookie : Option Text → Type 0
NoSessionCookie none = Unit {0}
NoSessionCookie (some header) = includes header session_prefix ≡ false

-- A request changes nothing, or it does not come with a session cookie, or its header has the
-- session's CSRF token, which is not empty.
abbrev pub FromOwnPage : Request → SessionUser → Type 0
FromOwnPage request u =
    ((is_mutation request.method ≡ false) ⊎ NoSessionCookie request.cookie)
    ⊎ ((u.csrf_token ≢ []) × (request.csrf_header ≡ some u.csrf_token))

abbrev pub Authorized : Identity → ℕ → Text → Request → List Session → SessionUser → Type 0
Authorized db now permission request sessions u =
    LiveSession now request sessions u
    × Granted db u.user_id u.tenant_id permission
    × FromOwnPage request u
