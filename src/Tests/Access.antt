-- ===== src/Tests/Access.antt =====
-- Concrete sessions, logins and requests.
use stablecoin_treasury.Prelude.{ℕ, ◌≡◌, refl, true, none, some, [], ◌∷◌, ◌++◌}
use stablecoin_treasury.Prelude.Strings.{Text, text_eq}
use stablecoin_treasury.Prelude.Outcome.{ok}
use stablecoin_treasury.Access.Cookies.{plain_session}
use stablecoin_treasury.Access.Sessions.{
  Session, active, Identity, Ttl, has_token, new_session, create_session, SessionUser, bumped,
  extend_session, load_roles, validate_session,
}
use stablecoin_treasury.Access.History.{
  SessionEvent, opened, closed, used, apply_event, sessions_after, Lasts,
}
use stablecoin_treasury.Access.Lifetime.{session_lifetime}
use stablecoin_treasury.Access.Logout.{logged_out_for_good, OpensOther}
use stablecoin_treasury.Access.Guards.{post, Request, AuthConfig, Handler}

abbrev pub word_a : Text
word_a = b'a' ∷ []

abbrev pub word_b : Text
word_b = b'b' ∷ []

abbrev pub word_p : Text
word_p = b'p' ∷ []

abbrev permission : Text
permission = b'x' ∷ []

-- Role 4 of tenant 2 has the permission, and user 7 has the role. The stored hash of the user is
-- one of another scheme.
abbrev pub identity : Identity
identity = record {
  users =
      record {
        id = 7;
        tenant_id = 2;
        email = word_a;
        display_name = word_b;
        password_hash = word_p;
        status = active;
      }
      ∷ [];
  roles = record { id = 4; tenant_id = 2; name = word_a } ∷ [];
  user_roles = (7, 4) ∷ [];
  role_permissions = (4, permission) ∷ [];
}

abbrev pub ttl : Ttl
ttl = record { hours = 1; idle_minutes = 5 }

abbrev user_7 : SessionUser
user_7 = record {
  user_id = 7;
  email = word_a;
  display_name = word_b;
  tenant_id = 2;
  csrf_token = word_b;
  roles = word_a ∷ [];
  session_token = word_a;
}

abbrev opening : SessionEvent
opening = opened 7 2 word_a word_b 1000

session_lifetime_example : Lasts ttl (used word_a 200000 ∷ opening ∷ []) word_a 400001
unfolding validate_session sessions_after apply_event create_session new_session has_token text_eq
    bumped extend_session load_roles
session_lifetime_example =
    session_lifetime ttl identity (used word_a 200000 ∷ opening ∷ []) word_a 400000 user_7 refl

logged_out_for_good_example :
    (validate_session ttl identity 3000 word_a
      (sessions_after ttl identity (used word_a 2500 ∷ closed word_a ∷ opening ∷ []))).0
    ≡ none
unfolding OpensOther text_eq
logged_out_for_good_example =
    logged_out_for_good ttl identity word_a (used word_a 2500 ∷ []) (opening ∷ []) 3000 (tt, tt)

abbrev pub session : Session
session = record {
  user_id = 7;
  tenant_id = 2;
  token = word_a;
  csrf_token = word_b;
  expires_at = 301000;
  created_at = 1000;
}

-- A change over a cookie, with the session's CSRF token.
abbrev cookie_request : Request
cookie_request = record {
  method = post;
  authorization = none;
  cookie = some (plain_session ++ b'=' ∷ word_a);
  csrf_header = some word_b;
}

abbrev auth_config : AuthConfig
auth_config = record { auth_required = true; ttl = ttl; default_tenant = 1 }

abbrev answer : Handler ℕ
answer ctx sessions = (ok ctx.tenant_id, sessions)
