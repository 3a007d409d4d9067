-- ===== src/Tests/Logins.antt =====
-- Concrete passwords, cookies and logins.
use stablecoin_treasury.Prelude.{
  ℕ, ◌≡◌, refl, ◌↔◌, true, false, Option, none, some, [], ◌∷◌, ◌++◌, if◌then◌else◌, All,
}
use stablecoin_treasury.Prelude.Strings.{Text, text_eq}
use stablecoin_treasury.Money.Digits.{print, print_digits}
use stablecoin_treasury.Access.Passwords.{
  Crypto, hash_password, verify_password, needs_password_rehash, verify-hash,
}
use stablecoin_treasury.Access.Cookies.{
  plain_session, session_cookie_header, csrf_cookie_header, session_token_from_cookie, sent_back,
}
use stablecoin_treasury.Access.SentBack.{session_token-sent_back}
use stablecoin_treasury.Access.Users.{Casing, AuthUser}
use stablecoin_treasury.Access.Login.{
  LoginState, LoginConfig, Draws, LoginRequest, login, LoginReply,
}
use stablecoin_treasury.Access.LoginErrors.{lockout_ignores_passwords}
use stablecoin_treasury.Access.State.{
  StateKey, policies, compose_state, IsShown, HasFailed, compose_state_complete,
}
use stablecoin_treasury.Http.Limits.{check_login, login_bucket}
use stablecoin_treasury.Tests.Access.{word_a, word_b, word_p, identity, ttl, session}

abbrev casing : Casing
casing = record { to_lower = λ t. t; sql_lower = λ t. t }

-- A runtime whose keys are the passwords, and which reads decimal digits.
abbrev crypto : Crypto
unfolding text_eq print print_digits
crypto = record {
  scrypt = λ password salt n r p. some password;
  sha256_hex = λ password. password;
  number = λ t.
      if text_eq t (print 16384)
      then some 16384
      else if text_eq t (print 8)
      then some 8
      else if text_eq t (print 1)
      then some 1
      else none;
}

verify-hash_example :
    (stored : Text) × (hash_password crypto word_a word_p ≡ some stored)
    × (needs_password_rehash stored ≡ false)
    × ((verify_password crypto word_b stored ≡ true)
        ↔ (crypto.scrypt word_b word_a 16384 8 1 ≡ some word_p))
unfolding crypto text_eq print print_digits
verify-hash_example =
    verify-hash crypto word_a word_p word_b word_p (refl, refl, refl) ((refl, tt), refl)
      ((refl, tt), refl) refl

session_token-sent_back_example :
    session_token_from_cookie (
      some (
        sent_back
          (session_cookie_header true word_a 5000 0)
          (csrf_cookie_header true word_b 5000 0)))
    ≡ some word_a
session_token-sent_back_example =
    session_token-sent_back true word_a word_b 5000 0 ((refl, tt), (refl, tt), refl)
      ((refl, tt), (refl, tt), refl)

abbrev login_config : LoginConfig
login_config = record {
  ttl = ttl;
  window = 60000;
  max_failures = 1;
  lockout = 300000;
  secure = false;
  default_tenant = 1;
}

abbrev draws : Draws
draws = record {
  salt = word_a;
  token = word_b;
  csrf_token = word_p;
  deletes = true;
  inserts = true;
}

abbrev login_request : LoginRequest
login_request = record {
  email = word_a;
  password = word_p;
  wants_token = false;
  ip = word_a;
  cookie = some (plain_session ++ b'=' ∷ word_a);
}

abbrev before_login : LoginState
before_login = record { identity = identity; sessions = session ∷ []; bucket = none; audit = [] }

-- The user of the reply, and the reply.
abbrev auth_user_7 : AuthUser
auth_user_7 = record {
  id = 7;
  email = word_a;
  display_name = word_b;
  tenant_id = 2;
  roles = word_a ∷ [];
}

abbrev login_reply : LoginReply
login_reply = record {
  user = auth_user_7;
  token = none;
  csrf_token = word_p;
  expires_at = 302000;
  cookies =
      session_cookie_header false word_b 302000 2000
      ∷ csrf_cookie_header false word_p 302000 2000
      ∷ [];
}

abbrev after_login : LoginState
after_login = (login login_config casing crypto draws 2000 login_request before_login).1

abbrev wrong_request : LoginRequest
wrong_request = record login_request { password = word_b }

lockout_ignores_passwords_example :
    login login_config casing crypto draws 2000 login_request (record before_login {
      bucket = some (record { count = 1; window_start = 1000; locked_until = 301000 });
    })
    ≡ login login_config casing crypto draws 2000
        (record login_request { password = word_b })
        (record before_login {
          bucket = some (record { count = 1; window_start = 1000; locked_until = 301000 });
        })
unfolding check_login login_bucket
lockout_ignores_passwords_example =
    lockout_ignores_passwords login_config casing crypto crypto draws 2000 login_request word_b
      (record before_login {
        bucket = some (record { count = 1; window_start = 1000; locked_until = 301000 });
      })
      refl refl refl

abbrev one_down : StateKey → Option ℕ
one_down policies = none
one_down _ = some 0

compose_state_complete_example :
    IsShown one_down policies (compose_state one_down)
    × All (HasFailed one_down) (compose_state one_down).degraded
compose_state_complete_example = compose_state_complete one_down policies
