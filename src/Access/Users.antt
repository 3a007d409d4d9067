-- ===== src/Access/Users.antt =====
-- Credentials (packages/shared/auth.mjs): users by email and the check of a password.
use stablecoin_treasury.Prelude.{
  ℕ, Bool, true, false, ◌&&◌, Option, none, some, List, [], ◌∷◌, map, ◌==◌, if◌then◌else◌, find,
  select,
}
use stablecoin_treasury.Prelude.Strings.{Text, text_eq, trim}
use stablecoin_treasury.Prelude.Outcome.{Outcome, ok, err}
use stablecoin_treasury.Access.Passwords.{
  Crypto, hash_password, verify_password, needs_password_rehash,
}
use stablecoin_treasury.Access.Sessions.{
  UserStatus, active, suspended, UserRow, Identity, load_roles,
}

-- The case mappings of the process (`toLowerCase`) and of the database (`lower`).
pub record Casing : Type 0 where
  pub to_lower : Text → Text
  pub sql_lower : Text → Text

abbrev pub is_active : UserStatus → Bool
is_active active = true
is_active suspended = false

abbrev pub first_two {ℓ} : {A : Type ℓ} → List A → List A
first_two [] = []
first_two (x ∷ []) = x ∷ []
first_two (x ∷ y ∷ _) = x ∷ y ∷ []

unfoldable pub answers_to : Casing → Text → UserRow → Bool
unfolding text_eq trim
answers_to casing email u =
    text_eq (casing.sql_lower u.email) (casing.to_lower (trim email)) && is_active u.status

-- `resolveUsersByEmail`; the table lists users in the order of their tenants' ids.
unfoldable pub resolve_users_by_email : Casing → Identity → Text → List UserRow
unfolding answers_to
resolve_users_by_email casing db email = first_two (select (answers_to casing email) db.users)

abbrev pub head {ℓ} : {A : Type ℓ} → List A → Option A
head [] = none
head (x ∷ xs) = some x

-- `resolveUserByEmail`
unfoldable pub resolve_user_by_email : Casing → Identity → Text → Option UserRow
unfolding resolve_users_by_email
resolve_user_by_email casing db email = head (resolve_users_by_email casing db email)

-- What `authenticateUser` returns.
pub record AuthUser : Type 0 where
  pub id : ℕ
  pub email : Text
  pub display_name : Text
  pub tenant_id : ℕ
  pub roles : List Text

unfoldable pub auth_user : Identity → UserRow → AuthUser
unfolding load_roles
auth_user db u = record {
  id = u.id;
  email = u.email;
  display_name = u.display_name;
  tenant_id = u.tenant_id;
  roles = load_roles db u.id;
}

abbrev pub with_hash : ℕ → Text → UserRow → UserRow
with_hash id stored u = if u.id == id then record u { password_hash = stored } else u

abbrev pub set_hash : ℕ → Text → Identity → Identity
set_hash id stored db = record db { users = map (with_hash id stored) db.users }

-- An exception of scrypt.
pub data HashError : Type 0 where
  hash_failed : HashError

abbrev pub rehashed :
    Identity → UserRow → Option Text → Outcome HashError (Option AuthUser × Identity)
rehashed db u none = err hash_failed
rehashed db u (some stored) = ok (some (auth_user db u), set_hash u.id stored db)

unfoldable pub matched :
    Crypto
    → Text
    → Identity
    → Text
    → Option UserRow
    → Outcome HashError (Option AuthUser × Identity)
unfolding needs_password_rehash hash_password
matched crypto salt db password none = ok (none, db)
matched crypto salt db password (some u) =
    if needs_password_rehash u.password_hash
    then rehashed db u (hash_password crypto salt password)
    else ok (some (auth_user db u), db)

-- `authenticateUser`, with the salt that a new hash would draw.
unfoldable pub authenticate_user :
    Casing → Crypto → Text → Identity → Text → Text → Outcome HashError (Option AuthUser × Identity)
unfolding resolve_users_by_email verify_password matched
authenticate_user casing crypto salt db email password = matched crypto salt db password (
    find (λ u. verify_password crypto password u.password_hash)
      (resolve_users_by_email casing db email))
