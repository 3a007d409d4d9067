-- ===== src/Http/Tenants.antt =====
-- The tenant of a request.
use stablecoin_treasury.Prelude.{
  ℕ, ◌≡◌, refl, sym, subst, ◌⊎◌, inl, inr, true, false, not, List, [], ◌∷◌, ◌==◌, ==_iff,
  Bool-cases, and_left, and_right, length, any, All, Bool, ◌&&◌,
}
use stablecoin_treasury.Prelude.Strings.{Text, split, trim, is_empty}
use stablecoin_treasury.Prelude.Outcome.{ok}
use stablecoin_treasury.Http.Routing.{is_hex, hex_part, uuid_parts, is_uuid, tenant_id_from_headers}
use stablecoin_treasury.Http.Bodies.{blank}

-- Hexadecimal digits, as many as given.
abbrev pub HexDigits : ℕ → Text → Type 0
HexDigits n t = (length t ≡ n) × All (λ c. is_hex c ≡ true) t

-- Five parts of 8, 4, 4, 4 and 12 hexadecimal digits between hyphens.
abbrev pub Uuid : Text → Type 0
Uuid t =
    (a : Text) × (b : Text) × (c : Text) × (d : Text) × (e : Text) × (split b'-' t
      ≡ a ∷ b ∷ c ∷ d ∷ e ∷ [])
    × HexDigits 8 a
    × HexDigits 4 b
    × HexDigits 4 c
    × HexDigits 4 d
    × HexDigits 12 e

none_fails : (t : Text) → not (any (λ c. not (is_hex c)) t) ≡ true → All (λ c. is_hex c ≡ true) t
none_fails [] h = tt
none_fails (c ∷ cs) h = elim (Bool-cases (is_hex c)) [
  | inl e ↦ (e, none_fails cs (rw e at h))
  | inr e ↦ cc (rw e at h)
]

hex_part-HexDigits : (n : ℕ) (t : Text) → hex_part n t ≡ true → HexDigits n t
hex_part-HexDigits n t h = (
  (==_iff (length t) n).0 (and_left (length t == n) _ h),
  none_fails t (and_right (length t == n) _ h),
)

uuid_parts-Uuid :
    (t : Text) (parts : List Text) → split b'-' t ≡ parts → uuid_parts parts ≡ true → Uuid t
uuid_parts-Uuid t (a ∷ b ∷ c ∷ d ∷ e ∷ []) s h =
    let to_b = hex_part 8 a && hex_part 4 b in
    let to_c = to_b && hex_part 4 c in
    let to_d = to_c && hex_part 4 d in
    let h3 = and_left to_d (hex_part 12 e) h in
    let h2 = and_left to_c (hex_part 4 d) h3 in
    let h1 = and_left to_b (hex_part 4 c) h2 in
    (
      a,
      b,
      c,
      d,
      e,
      s,
      hex_part-HexDigits 8 a (and_left (hex_part 8 a) (hex_part 4 b) h1),
      hex_part-HexDigits 4 b (and_right (hex_part 8 a) (hex_part 4 b) h1),
      hex_part-HexDigits 4 c (and_right to_b (hex_part 4 c) h2),
      hex_part-HexDigits 4 d (and_right to_c (hex_part 4 d) h3),
      hex_part-HexDigits 12 e (and_right to_d (hex_part 12 e) h),
    )
uuid_parts-Uuid t _ s h = cc

is_uuid-Uuid : (t : Text) → is_uuid t ≡ true → Uuid t
unfolding is_uuid
is_uuid-Uuid t h = uuid_parts-Uuid t (split b'-' t) refl h

-- The tenant of a request: the one that its header names, by an identifier, or the default where
-- the header may be missing.
abbrev pub TenantOf : Text → Bool → Text → Text → Type 0
TenantOf default required header tenant =
    ((trim header ≡ []) × (required ≡ false) × (tenant ≡ default))
    ⊎ ((tenant ≡ trim header) × Uuid tenant)

pub tenant-TenantOf :
    (default : Text) (required : Bool) (header tenant : Text)
    → tenant_id_from_headers default required header ≡ ok tenant
    → TenantOf default required header tenant
unfolding tenant_id_from_headers
tenant-TenantOf default required header tenant h = elim (Bool-cases (is_empty (trim header))) [
  | inl missing ↦ elim (Bool-cases required) [
    | inl needed ↦ cc (rw (missing, needed) at h)
    | inr free ↦ inl (blank (trim header) missing, free, cc (rw (missing, free) at h))
  ]
  | inr given ↦ elim (Bool-cases (is_uuid (trim header))) [
    | inr other ↦ cc (rw (given, other) at h)
    | inl uuid ↦
        let same : tenant ≡ trim header = cc (rw (given, uuid) at h) in
        inr (same, subst Uuid (sym same) (is_uuid-Uuid (trim header) uuid))
  ]
]
