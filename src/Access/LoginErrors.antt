-- ===== src/Access/LoginErrors.antt =====
-- The logins that fail.
use stablecoin_treasury.Prelude.{ℕ, ◌≡◌, ◌⊎◌, false, refl}
use stablecoin_treasury.Prelude.Strings.{Text, is_empty}
use stablecoin_treasury.Prelude.Outcome.{Outcome}
use stablecoin_treasury.Access.Passwords.{Crypto}
use stablecoin_treasury.Access.Cookies.{session_token_from_cookie}
use stablecoin_treasury.Access.Users.{Casing}
use stablecoin_treasury.Access.Login.{
  LoginState, LoginConfig, Draws, LoginRequest, LoginError, token_taken, rotated, login,
  database_failed,
}
use stablecoin_treasury.Http.Limits.{check_login}

-- The sessions are as they were, or less the one that the client presented where the new session
-- could not be inserted.
abbrev Untouched : LoginRequest → LoginState → LoginError → LoginState → Type 0
Untouched asked st e st' =
    (st'.sessions ≡ st.sessions)
    ⊎ ((st'.sessions ≡ rotated (session_token_from_cookie asked.cookie) st.sessions)
        × ((e ≡ token_taken) ⊎ (e ≡ database_failed)))

-- While the limiter refuses an address and an email, the answer and the state after a login are
-- the same for all passwords and whatever their check would say.
pub lockout_ignores_passwords :
    (cfg : LoginConfig) (casing : Casing) (crypto other : Crypto) (draws : Draws) (now : ℕ)
    (asked : LoginRequest) (password : Text) (st : LoginState)
    → (check_login cfg.window now st.bucket).0 ≡ false
    → is_empty asked.password ≡ false
    → is_empty password ≡ false
    → login cfg casing crypto draws now asked st
      ≡ login cfg casing other draws now (record asked { password = password }) st
unfolding login
lockout_ignores_passwords cfg casing crypto other draws now asked password st refused given given' =
    rw (refused, given, given') refl
