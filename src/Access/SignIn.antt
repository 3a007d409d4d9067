-- ===== src/Access/SignIn.antt =====
-- Whom a sign-in authenticates.
use stablecoin_treasury.Prelude.{
  ◌≡◌, refl, sym, ap, inl, inr, true, Option, none, some, List, [], ◌∷◌, Bool-cases, find, select,
  All, find-All, find-passes, and_left, and_right, In, select-In,
}
use stablecoin_treasury.Prelude.Strings.{Text, text_eq, trim, text_eq_sound}
use stablecoin_treasury.Prelude.Outcome.{ok}
use stablecoin_treasury.Access.Passwords.{
  Crypto, hash_password, verify_password, needs_password_rehash,
}
use stablecoin_treasury.Access.Sessions.{UserRow, Identity, UserStatus, active, suspended}
use stablecoin_treasury.Access.Users.{
  Casing, first_two, answers_to, resolve_users_by_email, AuthUser, auth_user, rehashed, matched,
  authenticate_user, is_active,
}

-- The credentials are those of an active user of the table, whom the result names.
abbrev pub Authenticated : Casing → Crypto → Identity → Text → Text → AuthUser → UserRow → Type 0
Authenticated casing crypto db email password user u =
    In u db.users
    × (u.status ≡ active)
    × (casing.sql_lower u.email ≡ casing.to_lower (trim email))
    × (verify_password crypto password u.password_hash ≡ true)
    × (user.id ≡ u.id)
    × (user.tenant_id ≡ u.tenant_id)

active_status : (t : UserStatus) → is_active t ≡ true → t ≡ active
active_status active h = refl
active_status suspended h = cc

-- A row that answers to an email is an active user's with it.
answers_to-row :
    (casing : Casing) (email : Text) (u : UserRow)
    → answers_to casing email u ≡ true
    → (u.status ≡ active) × (casing.sql_lower u.email ≡ casing.to_lower (trim email))
unfolding answers_to
answers_to-row casing email u h = (
  active_status u.status (
      and_right (text_eq (casing.sql_lower u.email) (casing.to_lower (trim email)))
        (is_active u.status) h),
  text_eq_sound (casing.sql_lower u.email) (casing.to_lower (trim email)) (
      and_left (text_eq (casing.sql_lower u.email) (casing.to_lower (trim email)))
        (is_active u.status) h),
)

first_two-All {ℓ κ} : {A : Type ℓ} (P : A → Type κ) (xs : List A) → All P xs → All P (first_two xs)
first_two-All P [] h = tt
first_two-All P (x ∷ []) h = h
first_two-All P (x ∷ y ∷ ys) h = (h.0, (h.1.0, tt))

rehashed-user :
    (db : Identity) (u : UserRow) (o : Option Text) (user : AuthUser) (db' : Identity)
    → rehashed db u o ≡ ok (some user, db')
    → auth_user db u ≡ user
rehashed-user db u none user db' e = cc
rehashed-user db u (some stored) user db' e = cc

matched-user :
    (crypto : Crypto) (salt : Text) (db : Identity) (password : Text) (o : Option UserRow)
    (user : AuthUser) (db' : Identity)
    → matched crypto salt db password o ≡ ok (some user, db')
    → (u : UserRow) × (o ≡ some u) × (auth_user db u ≡ user)
unfolding matched
matched-user crypto salt db password none user db' e = cc
matched-user crypto salt db password (some u) user db' e =
    elim (Bool-cases (needs_password_rehash u.password_hash)) [
      | inl old ↦
          (u, refl, rehashed-user db u (hash_password crypto salt password) user db' (rw old at e))
      | inr current ↦ (u, refl, cc (rw current at e))
    ]

pub authenticate_user-Authenticated :
    (casing : Casing) (crypto : Crypto) (salt : Text) (db : Identity) (email password : Text)
    (user : AuthUser) (db' : Identity)
    → authenticate_user casing crypto salt db email password ≡ ok (some user, db')
    → (u : UserRow) × Authenticated casing crypto db email password user u
unfolding authenticate_user resolve_users_by_email auth_user
authenticate_user-Authenticated casing crypto salt db email password user db' e =
    let Row = λ (r : UserRow). In r db.users × (answers_to casing email r ≡ true) in
    let users = first_two (select (answers_to casing email) db.users) in
    let check = λ (u : UserRow). verify_password crypto password u.password_hash in
    let (u, found, same) = matched-user crypto salt db password (find check users) user db' e in
    let row =
      find-All Row check users
        (first_two-All Row (select (answers_to casing email) db.users)
          (select-In (answers_to casing email) db.users))
        found in
    let answers = answers_to-row casing email u row.1 in
    (
      u,
      (
        row.0,
        answers.0,
        answers.1,
        find-passes check users found,
        ap (λ r. r.id) (sym same),
        ap (λ r. r.tenant_id) (sym same),
      ),
    )
