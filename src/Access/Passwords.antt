-- ===== src/Access/Passwords.antt =====
-- `hashPassword`, `verifyPassword` and `needsPasswordRehash` (packages/shared/auth.mjs).
use stablecoin_treasury.Prelude.{
  ℕ, ◌≡◌, refl, ◌↔◌, Bool, true, false, not, ◌||◌, Option, none, some, List, [], ◌∷◌, ◌++◌,
  if◌then◌else◌, sym, ap, ◌∙◌,
}
use stablecoin_treasury.Prelude.Strings.{
  Text, text_eq, starts_with, split, is_empty, Free, split-append, split-Free, text_eq_refl,
  text_eq_sound,
}
use stablecoin_treasury.Money.Digits.{print}

-- What the runtime provides: scrypt with its key in base64url (`none` where it throws), for a
-- password, a salt and the three costs; SHA-256 in hexadecimal digits; and `Number(text)`, where
-- that is a safe integer that is not negative.
pub record Crypto : Type 0 where
  pub scrypt : Text → Text → ℕ → ℕ → ℕ → Option Text
  pub sha256_hex : Text → Text
  pub number : Text → Option ℕ

-- SCRYPT_N, SCRYPT_R and SCRYPT_P
abbrev scrypt_n : ℕ
scrypt_n = 16384

abbrev scrypt_r : ℕ
scrypt_r = 8

abbrev scrypt_p : ℕ
scrypt_p = 1

-- "scrypt$"
abbrev scheme : Text
scheme = b's' ∷ b'c' ∷ b'r' ∷ b'y' ∷ b'p' ∷ b't' ∷ b'$' ∷ []

-- The start of a stored hash of the current costs, before what follows it.
abbrev costs : Text → Text
unfolding print
costs rest =
    scheme ++ (print scrypt_n ++ b'$' ∷ (print scrypt_r ++ b'$' ∷ (print scrypt_p ++ b'$' ∷ rest)))

-- `hashPassword`, for the salt that was drawn.
unfoldable pub hash_password : Crypto → Text → Text → Option Text
unfolding costs
hash_password crypto salt password = elim (crypto.scrypt password salt scrypt_n scrypt_r scrypt_p) [
  | none ↦ none
  | some key ↦ some (costs (salt ++ b'$' ∷ key))
]

-- The `try` of `verifyScryptPassword`.
abbrev key_matches : Option Text → Text → Bool
key_matches none expected = false
key_matches (some actual) expected = text_eq actual expected

abbrev verify_costs : Crypto → Text → Text → Text → Option ℕ → Option ℕ → Option ℕ → Bool
verify_costs crypto password salt expected none r p = false
verify_costs crypto password salt expected (some n) none p = false
verify_costs crypto password salt expected (some n) (some r) none = false
verify_costs crypto password salt expected (some n) (some r) (some p) =
    if is_empty salt || is_empty expected
    then false
    else key_matches (crypto.scrypt password salt n r p) expected

abbrev verify_parts : Crypto → Text → List Text → Bool
verify_parts crypto password (_ ∷ n_raw ∷ r_raw ∷ p_raw ∷ salt ∷ expected ∷ []) =
    verify_costs crypto password salt expected (crypto.number n_raw) (crypto.number r_raw)
      (crypto.number p_raw)
verify_parts crypto password _ = false

-- `verifyScryptPassword`
unfoldable pub verify_scrypt_password : Crypto → Text → Text → Bool
unfolding split text_eq
verify_scrypt_password crypto password stored = verify_parts crypto password (split b'$' stored)

-- `verifyPassword`
unfoldable pub verify_password : Crypto → Text → Text → Bool
unfolding starts_with verify_scrypt_password text_eq
verify_password crypto password stored =
    if starts_with stored scheme
    then verify_scrypt_password crypto password stored
    else text_eq (crypto.sha256_hex password) stored

-- `needsPasswordRehash`
unfoldable pub needs_password_rehash : Text → Bool
unfolding starts_with costs
needs_password_rehash stored = not (starts_with stored (costs []))

-- The runtime reads back the decimal digits of the costs in use.
abbrev pub ReadsCosts : Crypto → Type 0
unfolding print
ReadsCosts crypto =
    (crypto.number (print 16384) ≡ some 16384)
    × (crypto.number (print 8) ≡ some 8)
    × (crypto.number (print 1) ≡ some 1)

-- A text of base64url, which has no dollar sign, with at least one unit.
abbrev pub Encoded : Text → Type 0
Encoded t = Free b'$' t × (is_empty t ≡ false)

split_stored :
    (salt key : Text)
    → Encoded salt
    → Encoded key
    → split b'$' (costs (salt ++ b'$' ∷ key))
      ≡ (b's' ∷ b'c' ∷ b'r' ∷ b'y' ∷ b'p' ∷ b't' ∷ [])
        ∷ print 16384
        ∷ print 8
        ∷ print 1
        ∷ salt
        ∷ key
        ∷ []
unfolding costs print split
split_stored salt key hs hk = rw (split-append b'$' salt key hs.0, split-Free b'$' key hk.0) refl

verify_stored :
    (crypto : Crypto) (salt tried key : Text)
    → ReadsCosts crypto
    → Encoded salt
    → Encoded key
    → verify_password crypto tried (costs (salt ++ b'$' ∷ key))
      ≡ key_matches (crypto.scrypt tried salt 16384 8 1) key
unfolding verify_password verify_scrypt_password costs starts_with print
verify_stored crypto salt tried key reads hs hk =
    rw (split_stored salt key hs hk, reads.0, reads.1, reads.2, hs.1, hk.1) refl

matches_same : (o : Option Text) (key : Text) → key_matches o key ≡ true → o ≡ some key
matches_same none key h = cc
matches_same (some actual) key h = ap some (text_eq_sound actual key h)

-- A stored hash is of the current costs, and a password verifies against it exactly where scrypt
-- gives it the key of the password that was hashed.
pub verify-hash :
    (crypto : Crypto) (salt password tried key : Text)
    → ReadsCosts crypto
    → Encoded salt
    → Encoded key
    → crypto.scrypt password salt 16384 8 1 ≡ some key
    → (stored : Text) × (hash_password crypto salt password ≡ some stored)
      × (needs_password_rehash stored ≡ false)
      × ((verify_password crypto tried stored ≡ true)
          ↔ (crypto.scrypt tried salt 16384 8 1 ≡ some key))
unfolding hash_password needs_password_rehash starts_with costs print
verify-hash crypto salt password tried key reads hs hk made =
    let checks = verify_stored crypto salt tried key reads hs hk in
    (
      costs (salt ++ b'$' ∷ key),
      rw (hash_password, made) refl,
      refl,
      (
        (λ accepted. matches_same (crypto.scrypt tried salt 16384 8 1) key (sym checks ∙ accepted)),
        (λ same. checks ∙ (rw same (text_eq_refl key))),
      ),
    )
