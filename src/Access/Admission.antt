-- ===== src/Access/Admission.antt =====
-- The tests of the guards that a request passes.
use stablecoin_treasury.Prelude.{
  ◌≡◌, refl, inl, inr, true, false, Option, none, some, List, Bool-cases,
}
use stablecoin_treasury.Prelude.Strings.{Text}
use stablecoin_treasury.Prelude.Outcome.{ok}
use stablecoin_treasury.Access.Sessions.{Session, Identity, SessionUser}
use stablecoin_treasury.Access.Guards.{
  Request, session_actor, Context, AuthConfig, Handler, auth_source, auth_decided, csrf_ok,
  csrf_checked, has_permission, permitted, permission_checked,
}

-- The context of a request with the session of a user.
abbrev pub session_context : Request → SessionUser → Context
session_context request u = record {
  request = request;
  user = session_actor u (auth_source request);
  tenant_id = u.tenant_id;
}

-- Both tests passed.
passed {ℓ} :
    {B : Type ℓ} (cfg : AuthConfig) (db : Identity) (permission : Text) (handler : Handler B)
    (request : Request) (u : SessionUser) (rows after_rows : List Session) (b : B)
    → cfg.auth_required ≡ true
    → csrf_checked cfg
        (permission_checked cfg db permission handler)
        (session_context request u)
        rows
      ≡ (ok b, after_rows)
    → (has_permission cfg db u.user_id u.tenant_id permission ≡ true)
      × (csrf_ok cfg (session_context request u) (session_actor u (auth_source request)) ≡ true)
      × (handler (session_context request u) rows ≡ (ok b, after_rows))
unfolding csrf_checked permission_checked permitted
passed cfg db permission handler request u rows after_rows b required e =
    elim (Bool-cases
      (csrf_ok cfg (session_context request u) (session_actor u (auth_source request)))) [
        | inr bad ↦ cc (rw bad at e)
        | inl good ↦ elim (Bool-cases (has_permission cfg db u.user_id u.tenant_id permission)) [
          | inr bad ↦ cc (rw (good, bad, required) at e)
          | inl may ↦ (may, good, cc (rw (good, may, required) at e))
        ]
      ]

pub decided {ℓ} :
    {B : Type ℓ} (cfg : AuthConfig) (db : Identity) (permission : Text) (handler : Handler B)
    (request : Request) (o : Option SessionUser) (rows after_rows : List Session) (b : B)
    → cfg.auth_required ≡ true
    → auth_decided cfg false
        (csrf_checked cfg (permission_checked cfg db permission handler))
        request
        o
        rows
      ≡ (ok b, after_rows)
    → (u : SessionUser) × (o ≡ some u)
      × (has_permission cfg db u.user_id u.tenant_id permission ≡ true)
      × (csrf_ok cfg (session_context request u) (session_actor u (auth_source request)) ≡ true)
      × (handler (session_context request u) rows ≡ (ok b, after_rows))
unfolding auth_decided
decided cfg db permission handler request none rows after_rows b required e = cc (rw required at e)
decided cfg db permission handler request (some u) rows after_rows b required e =
    let h = passed cfg db permission handler request u rows after_rows b required e in
    (u, refl, h.0, h.1, h.2)
