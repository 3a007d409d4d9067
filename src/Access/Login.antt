-- ===== src/Access/Login.antt =====
-- Login and logout of the gateway (services/api-gateway/src/index.mjs).
use stablecoin_treasury.Prelude.{
  true, false, ◌&&◌, ℕ, Bool, not, ◌||◌, Option, none, some, List, [], ◌∷◌, leb, if◌then◌else◌,
}
use stablecoin_treasury.Prelude.Strings.{Text, is_empty}
use stablecoin_treasury.Prelude.Outcome.{Outcome, ok, err}
use stablecoin_treasury.Access.Passwords.{Crypto}
use stablecoin_treasury.Access.Cookies.{
  session_cookie_header, csrf_cookie_header, clear_auth_cookie_headers, session_token_from_cookie,
}
use stablecoin_treasury.Access.Sessions.{
  Session, UserRow, Identity, Ttl, create_session, destroy_session,
}
use stablecoin_treasury.Access.Users.{
  Casing, resolve_user_by_email, AuthUser, HashError, authenticate_user,
}
use stablecoin_treasury.Access.Guards.{session_actor, guest, system, Context}
use stablecoin_treasury.Http.Limits.{
  LoginBucket, check_login, clear_login_failures, record_login_failure,
}

pub data SecurityAction : Type 0 where
  login_lockout login_failed login_success logged_out : SecurityAction

-- What `emitSecurityAudit` records, less the text of the detail.
pub record SecurityEvent : Type 0 where
  pub tenant_id : ℕ
  pub actor : Text
  pub action : SecurityAction
  pub object : Text

-- What a login works on. The bucket is that of the address and the email of the request.
pub record LoginState : Type 0 where
  pub identity : Identity
  pub sessions : List Session
  pub bucket : Option LoginBucket
  pub audit : List SecurityEvent

-- The limits of sessions and logins, SESSION_COOKIE_SECURE and DEFAULT_TENANT_ID.
pub record LoginConfig : Type 0 where
  pub ttl : Ttl
  pub window : ℕ
  pub max_failures : ℕ
  pub lockout : ℕ
  pub secure : Bool
  pub default_tenant : ℕ

-- What is drawn at random, and whether the database carries out the DELETE of the session that the
-- client presented and the INSERT of the new one.
pub record Draws : Type 0 where
  pub salt : Text
  pub token : Text
  pub csrf_token : Text
  pub deletes : Bool
  pub inserts : Bool

-- A body with its missing texts empty, whether it asks for the token, and the request's address
-- and cookies.
pub record LoginRequest : Type 0 where
  pub email : Text
  pub password : Text
  pub wants_token : Bool
  pub ip : Text
  pub cookie : Option Text

pub data LoginError : Type 0 where
  missing_credentials login_rate_limited invalid_credentials login_hash_failed : LoginError
  token_taken database_failed : LoginError

pub record LoginReply : Type 0 where
  pub user : AuthUser
  pub token : Option Text
  pub csrf_token : Text
  pub expires_at : ℕ
  pub cookies : List Text

-- `emitSecurityAudit`, where the insert succeeds; the code goes on after a failure of it too.
abbrev pub emit : ℕ → Text → SecurityAction → Text → LoginState → LoginState
emit tenant actor action object st = record st {
  audit = record { tenant_id = tenant; actor = actor; action = action; object = object } ∷ st.audit;
}

abbrev tenant_or : ℕ → Option UserRow → ℕ
tenant_or default none = default
tenant_or default (some u) = u.tenant_id

unfoldable pub audit_tenant : LoginConfig → Casing → Identity → Text → ℕ
unfolding resolve_user_by_email
audit_tenant cfg casing db email =
    tenant_or cfg.default_tenant (resolve_user_by_email casing db email)

-- The branch of a wrong password.
unfoldable pub login_refused :
    LoginConfig → ℕ → LoginRequest → ℕ → LoginState → Outcome LoginError LoginReply × LoginState
unfolding record_login_failure
login_refused cfg now asked tenant st =
    let b = record_login_failure cfg.window cfg.max_failures cfg.lockout now st.bucket in
    (
      err (if leb cfg.max_failures b.count then login_rate_limited else invalid_credentials),
      emit tenant asked.email login_failed asked.ip (record st { bucket = some b }),
    )

-- The session that the client presented is destroyed.
unfoldable pub rotated : Option Text → List Session → List Session
unfolding destroy_session
rotated none sessions = sessions
rotated (some old) sessions = destroy_session old sessions

unfoldable pub reply_of : LoginConfig → ℕ → LoginRequest → AuthUser → Session → LoginReply
unfolding session_cookie_header csrf_cookie_header
reply_of cfg now asked user s = record {
  user = user;
  token = if asked.wants_token then some s.token else none;
  csrf_token = s.csrf_token;
  expires_at = s.expires_at;
  cookies =
      session_cookie_header cfg.secure s.token s.expires_at now
      ∷ csrf_cookie_header cfg.secure s.csrf_token s.expires_at now
      ∷ [];
}

unfoldable pub replied :
    LoginConfig
    → ℕ
    → LoginRequest
    → AuthUser
    → LoginState
    → Option (Session × List Session)
    → Outcome LoginError LoginReply × LoginState
unfolding reply_of
replied cfg now asked user st none = (err token_taken, st)
replied cfg now asked user st (some (s, rows)) =
    (ok (reply_of cfg now asked user s), record st { sessions = rows })

abbrev pub is_given : Option Text → Bool
is_given none = false
is_given (some old) = true

-- The branch of a user whose password was right, with the sessions less the old one.
unfoldable pub login_accepted :
    LoginConfig
    → Draws
    → ℕ
    → LoginRequest
    → AuthUser
    → LoginState
    → Outcome LoginError LoginReply × LoginState
unfolding create_session replied rotated session_token_from_cookie
login_accepted cfg draws now asked user st =
    let cleared =
      emit user.tenant_id user.display_name login_success user.email
        (record st { bucket = clear_login_failures st.bucket }) in
    let rows = rotated (session_token_from_cookie asked.cookie) cleared.sessions in
    if is_given (session_token_from_cookie asked.cookie) && not draws.deletes
    then (err database_failed, cleared)
    else if not draws.inserts
    then (err database_failed, record cleared { sessions = rows })
    else replied cfg now asked user (record cleared { sessions = rows })
        (create_session cfg.ttl user.id user.tenant_id draws.token draws.csrf_token now rows)

unfoldable pub login_checked :
    LoginConfig
    → Draws
    → ℕ
    → LoginRequest
    → ℕ
    → LoginState
    → Outcome HashError (Option AuthUser × Identity)
    → Outcome LoginError LoginReply × LoginState
unfolding login_refused login_accepted
login_checked cfg draws now asked tenant st (err e) = (err login_hash_failed, st)
login_checked cfg draws now asked tenant st (ok (none, db)) =
    login_refused cfg now asked tenant (record st { identity = db })
login_checked cfg draws now asked tenant st (ok (some user, db)) =
    login_accepted cfg draws now asked user (record st { identity = db })

-- `login`
unfoldable pub login :
    LoginConfig
    → Casing
    → Crypto
    → Draws
    → ℕ
    → LoginRequest
    → LoginState
    → Outcome LoginError LoginReply × LoginState
unfolding audit_tenant check_login authenticate_user login_checked
login cfg casing crypto draws now asked st =
    let tenant = audit_tenant cfg casing st.identity asked.email in
    let (allowed, b) = check_login cfg.window now st.bucket in
    let checked = record st { bucket = some b } in
    if is_empty asked.email || is_empty asked.password
    then (err missing_credentials, st)
    else if not allowed
    then (err login_rate_limited, emit tenant asked.email login_lockout asked.ip checked)
    else login_checked cfg draws now asked tenant checked
        (authenticate_user casing crypto draws.salt st.identity asked.email asked.password)

-- `logout`, the handler that runs behind the CSRF guard; it answers with the headers that clear
-- the cookies.
unfoldable pub logout : LoginConfig → Context → LoginState → List Text × LoginState
unfolding destroy_session clear_auth_cookie_headers
logout cfg ctx st = elim ctx.user [
  | session_actor u source ↦ (
    clear_auth_cookie_headers cfg.secure,
    emit ctx.tenant_id u.display_name logged_out u.email
        (record st { sessions = destroy_session u.session_token st.sessions }),
  )
  | guest ↦ (clear_auth_cookie_headers cfg.secure, st)
  | system ↦ (clear_auth_cookie_headers cfg.secure, st)
]
