-- ===== src/Access/LoginLaws.antt =====
-- What a login does to the sessions, and what it takes.
use stablecoin_treasury.Prelude.{
  ◌&&◌, ℕ, ◌≡◌, refl, sym, ap, inl, inr, Bool, true, false, Option, none, some, List, [], ◌∷◌, ◌++◌,
  Bool-cases, any, if◌then◌else◌, subst, ◌∙◌, not, ◌||◌,
}
use stablecoin_treasury.Prelude.Strings.{is_empty}
use stablecoin_treasury.Prelude.Outcome.{ok, Outcome, err}
use stablecoin_treasury.Access.Passwords.{Crypto}
use stablecoin_treasury.Access.Cookies.{session_token_from_cookie}
use stablecoin_treasury.Access.Sessions.{
  Session, UserRow, Identity, has_token, new_session, create_session,
}
use stablecoin_treasury.Access.Users.{Casing, AuthUser, authenticate_user, HashError}
use stablecoin_treasury.Http.Limits.{check_login}
use stablecoin_treasury.Access.Login.{
  LoginState, LoginConfig, Draws, LoginRequest, LoginReply, rotated, replied, login_accepted,
  login_success, emit, login_refused, reply_of, login_checked, login, login_lockout, LoginError,
  missing_credentials, login_rate_limited, audit_tenant, is_given,
}
use stablecoin_treasury.Access.SignIn.{Authenticated, authenticate_user-Authenticated}

-- What an accepted login leaves: its row stands after the sessions less the old one, none of
-- which has its token.
abbrev pub Opened :
    LoginConfig → Draws → ℕ → LoginRequest → AuthUser → List Session → List Session → Type 0
Opened cfg draws now asked user sessions rows =
    (any (has_token draws.token) (rotated (session_token_from_cookie asked.cookie) sessions)
      ≡ false)
    × (rows
        ≡ rotated (session_token_from_cookie asked.cookie) sessions
          ++ new_session cfg.ttl user.id user.tenant_id draws.token draws.csrf_token now ∷ [])

replied-rows :
    (cfg : LoginConfig) (now : ℕ) (asked : LoginRequest) (user : AuthUser) (st st' : LoginState)
    (taken : Bool) (s : Session) (rows : List Session) (reply : LoginReply)
    → replied cfg now asked user st (if taken then none else some (s, rows)) ≡ (ok reply, st')
    → (taken ≡ false) × (st'.sessions ≡ rows) × (reply.user ≡ user)
unfolding replied reply_of
replied-rows cfg now asked user st st' true s rows reply e = cc
replied-rows cfg now asked user st st' false s rows reply e =
    let made : reply_of cfg now asked user s ≡ reply = cc in
    (refl, ap (λ r. r.1.sessions) (sym e), ap (λ r. r.user) (sym made))

accepted-Opened :
    (cfg : LoginConfig) (draws : Draws) (now : ℕ) (asked : LoginRequest) (user : AuthUser)
    (st st' : LoginState) (reply : LoginReply)
    → login_accepted cfg draws now asked user st ≡ (ok reply, st')
    → Opened cfg draws now asked user st.sessions st'.sessions × (reply.user ≡ user)
unfolding login_accepted create_session
accepted-Opened cfg draws now asked user st st' reply e =
    let rows = rotated (session_token_from_cookie asked.cookie) st.sessions in
    let s = new_session cfg.ttl user.id user.tenant_id draws.token draws.csrf_token now in
    let cleared =
      record (emit user.tenant_id user.display_name login_success user.email
        (record st { bucket = none })) { sessions = rows } in
    elim (Bool-cases (is_given (session_token_from_cookie asked.cookie) && not draws.deletes)) [
      | inl undeleted ↦ cc (rw undeleted at e)
      | inr deleted ↦ elim (Bool-cases draws.inserts) [
        | inr uninserted ↦ cc (rw (deleted, uninserted) at e)
        | inl inserted ↦
            let h =
              replied-rows cfg now asked user cleared st' (any (has_token draws.token) rows) s
                (rows ++ s ∷ []) reply (rw (deleted, inserted) at e) in
            ((h.0, h.1), h.2)
      ]
    ]

checked_ok :
    (cfg : LoginConfig) (draws : Draws) (now : ℕ) (asked : LoginRequest) (tenant : ℕ)
    (st st' : LoginState) (r : Outcome HashError (Option AuthUser × Identity)) (reply : LoginReply)
    → login_checked cfg draws now asked tenant st r ≡ (ok reply, st')
    → (user : AuthUser) × (db : Identity) × (r ≡ ok (some user, db))
      × Opened cfg draws now asked user st.sessions st'.sessions
      × (reply.user ≡ user)
unfolding login_checked login_refused
checked_ok cfg draws now asked tenant st st' (err e) reply h = cc
checked_ok cfg draws now asked tenant st st' (ok (none, db)) reply h = cc
checked_ok cfg draws now asked tenant st st' (ok (some user, db)) reply h =
    let o = accepted-Opened cfg draws now asked user (record st { identity = db }) st' reply h in
    (user, db, refl, o.0, o.1)

login_branch :
    (missing refused : Bool) (x y z : Outcome LoginError LoginReply × LoginState)
    (reply : LoginReply) (st' : LoginState)
    → x.0 ≡ err missing_credentials
    → y.0 ≡ err login_rate_limited
    → (if missing then x else if refused then y else z) ≡ (ok reply, st')
    → z ≡ (ok reply, st')
login_branch true refused x y z reply st' hx hy e = cc (sym hx ∙ ap (λ r. r.0) e)
login_branch false true x y z reply st' hx hy e = cc (sym hy ∙ ap (λ r. r.0) e)
login_branch false false x y z reply st' hx hy e = e

pub login_ok :
    (cfg : LoginConfig) (casing : Casing) (crypto : Crypto) (draws : Draws) (now : ℕ)
    (asked : LoginRequest) (st st' : LoginState) (reply : LoginReply)
    → login cfg casing crypto draws now asked st ≡ (ok reply, st')
    → (u : UserRow) × Authenticated casing crypto st.identity asked.email asked.password reply.user
        u
      × Opened cfg draws now asked reply.user st.sessions st'.sessions
unfolding login
login_ok cfg casing crypto draws now asked st st' reply e =
    let tenant = audit_tenant cfg casing st.identity asked.email in
    let c = check_login cfg.window now st.bucket in
    let checked = record st { bucket = some c.1 } in
    let auth = authenticate_user casing crypto draws.salt st.identity asked.email asked.password in
    let h = checked_ok cfg draws now asked tenant checked st' auth reply (
      login_branch (is_empty asked.email || is_empty asked.password) (not c.0)
        (err missing_credentials, st)
        (err login_rate_limited, emit tenant asked.email login_lockout asked.ip checked)
        (login_checked cfg draws now asked tenant checked auth) reply st' refl refl e) in
    let (u, found) =
      authenticate_user-Authenticated casing crypto draws.salt st.identity asked.email
        asked.password h.0 h.1 h.2 in
    (
      u,
      subst (λ x. Authenticated casing crypto st.identity asked.email asked.password x u) (sym h.4)
          found,
      subst (λ x. Opened cfg draws now asked x st.sessions st'.sessions) (sym h.4) h.3,
    )
