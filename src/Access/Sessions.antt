-- ===== src/Access/Sessions.antt =====
-- Sessions (packages/shared/auth.mjs) over the tables identity.sessions and identity.users. Times
-- are milliseconds; a `now` argument is the clock of the call, the database's and the process's.
use stablecoin_treasury.Prelude.{
  ℕ, ◌+◌, ◌*◌, min, Bool, not, ◌&&◌, Option, none, some, List, [], ◌∷◌, ◌++◌, map, ltb, ◌==◌,
  if◌then◌else◌, find, select, any,
}
use stablecoin_treasury.Prelude.Strings.{Text, text_eq, is_empty}

-- A row of identity.sessions.
pub record Session : Type 0 where
  pub user_id : ℕ
  pub tenant_id : ℕ
  pub token : Text
  pub csrf_token : Text
  pub expires_at : ℕ
  pub created_at : ℕ

pub data UserStatus : Type 0 where
  active suspended : UserStatus

-- A row of identity.users.
pub record UserRow : Type 0 where
  pub id : ℕ
  pub tenant_id : ℕ
  pub email : Text
  pub display_name : Text
  pub password_hash : Text
  pub status : UserStatus

-- The tables of users, of roles in the order of their names, of the roles that users have, and of
-- the permissions that roles have.
pub record Role : Type 0 where
  pub id : ℕ
  pub tenant_id : ℕ
  pub name : Text

pub record Identity : Type 0 where
  pub users : List UserRow
  pub roles : List Role
  pub user_roles : List (ℕ × ℕ)
  pub role_permissions : List (ℕ × Text)

-- SESSION_TTL_HOURS and SESSION_IDLE_TTL_MINUTES; 0 minutes turns the idle timeout off.
pub record Ttl : Type 0 where
  pub hours : ℕ
  pub idle_minutes : ℕ

abbrev pub absolute_ms : Ttl → ℕ
absolute_ms ttl = ttl.hours * 3600000

abbrev pub idle_ms : Ttl → ℕ
idle_ms ttl = ttl.idle_minutes * 60000

-- SESSION_IDLE_BUMP_GRACE_MS
abbrev pub grace_ms : ℕ
grace_ms = 60000

unfoldable pub has_token : Text → Session → Bool
unfolding text_eq
has_token token s = text_eq s.token token

-- The new row of `createSession`, for the tokens that were drawn.
unfoldable pub new_session : Ttl → ℕ → ℕ → Text → Text → ℕ → Session
new_session ttl user_id tenant_id token csrf_token now =
    let absolute_expires_at = now + absolute_ms ttl in
    let idle_expires_at =
      if ltb 0 ttl.idle_minutes then now + idle_ms ttl else absolute_expires_at in
    record {
      user_id = user_id;
      tenant_id = tenant_id;
      token = token;
      csrf_token = csrf_token;
      expires_at = min idle_expires_at absolute_expires_at;
      created_at = now;
    }

-- `createSession`; tokens are unique in the table, so a token that is there already makes the
-- INSERT throw.
unfoldable pub create_session :
    Ttl → ℕ → ℕ → Text → Text → ℕ → List Session → Option (Session × List Session)
unfolding new_session has_token
create_session ttl user_id tenant_id token csrf_token now sessions =
    let s = new_session ttl user_id tenant_id token csrf_token now in
    if any (has_token token) sessions then none else some (s, sessions ++ s ∷ [])

-- `destroySession`
unfoldable pub destroy_session : Text → List Session → List Session
unfolding has_token
destroy_session token = select (λ s. not (has_token token s))

-- What `validateSession` returns. `auth_source` is set by `requireAuth`.
pub record SessionUser : Type 0 where
  pub user_id : ℕ
  pub email : Text
  pub display_name : Text
  pub tenant_id : ℕ
  pub csrf_token : Text
  pub roles : List Text
  pub session_token : Text

-- The new expiry of a session that is used, if it moves.
unfoldable pub bumped : Ttl → ℕ → Session → Option ℕ
bumped ttl now s =
    let idle_deadline = now + idle_ms ttl in
    let new_expires = min idle_deadline (s.created_at + absolute_ms ttl) in
    if ltb 0 ttl.idle_minutes
      && (ltb (s.expires_at + grace_ms) idle_deadline && ltb s.expires_at new_expires)
    then some new_expires
    else none

-- `UPDATE ... WHERE token`: tokens are unique, so the first row with the token is the only one.
unfoldable pub extend_session : Text → ℕ → List Session → List Session
unfolding has_token
extend_session token expires [] = []
extend_session token expires (s ∷ ss) =
    let rest = extend_session token expires ss in
    if has_token token s then record s { expires_at = expires } ∷ ss else s ∷ rest

abbrev pub bump_to : Text → Option ℕ → List Session → List Session
bump_to token none sessions = sessions
bump_to token (some expires) sessions = extend_session token expires sessions

-- `loadRoles`
unfoldable pub load_roles : Identity → ℕ → List Text
load_roles db user_id =
    map (λ r. r.name)
      (select (λ r. any (λ ur. ur.0 == user_id && ur.1 == r.id) db.user_roles) db.roles)

abbrev pub session_user : Identity → Text → Session → UserRow → SessionUser
session_user db token s u = record {
  user_id = s.user_id;
  email = u.email;
  display_name = u.display_name;
  tenant_id = u.tenant_id;
  csrf_token = s.csrf_token;
  roles = load_roles db s.user_id;
  session_token = token;
}

-- The join of a session with its user, and the use of the session.
abbrev pub joined :
    Ttl
    → Identity
    → ℕ
    → Text
    → Session
    → Option UserRow
    → List Session
    → Option SessionUser × List Session
joined ttl db now token s none sessions = (none, sessions)
joined ttl db now token s (some u) sessions =
    (some (session_user db token s u), bump_to token (bumped ttl now s) sessions)

abbrev pub validated :
    Ttl → Identity → ℕ → Text → Option Session → List Session → Option SessionUser × List Session
validated ttl db now token none sessions = (none, sessions)
validated ttl db now token (some s) sessions =
    if ltb now s.expires_at
    then joined ttl db now token s (find (λ u. u.id == s.user_id) db.users) sessions
    else (none, sessions)

-- `validateSession`: the user of a live session, whose expiry moves with its use.
unfoldable pub validate_session :
    Ttl → Identity → ℕ → Text → List Session → Option SessionUser × List Session
unfolding has_token bumped extend_session load_roles
validate_session ttl db now token sessions =
    if is_empty token
    then (none, sessions)
    else validated ttl db now token (find (has_token token) sessions) sessions
