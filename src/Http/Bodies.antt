-- ===== src/Http/Bodies.antt =====
-- The body of a request that is read.
use stablecoin_treasury.Prelude.{
  ℕ, ◌+◌, ◌≤◌, ◌≡◌, refl, sym, ap, subst, ◌∙◌, ◌⊎◌, inl, inr, true, false, Option, none, some, List,
  [], ◌∷◌, ◌++◌, arith, ltb, if◌then◌else◌, Bool-cases,
}
use stablecoin_treasury.Prelude.Strings.{Text, trim, is_empty}
use stablecoin_treasury.Prelude.Outcome.{Outcome, ok, err}
use stablecoin_treasury.Http.Routing.{
  Runtime, HttpError, HttpRequest, read_chunks, parsed, has_body, read_json,
}

-- The size of a body and its text.
unfoldable pub total_bytes : List (ℕ × Text) → ℕ
total_bytes [] = 0
total_bytes (c ∷ cs) = c.0 + total_bytes cs

unfoldable pub whole_text : List (ℕ × Text) → Text
whole_text [] = []
whole_text (c ∷ cs) = c.1 ++ whole_text cs

read_chunks-whole :
    (limit size : ℕ) (cs : List (ℕ × Text)) (raw : Text)
    → size ≤ limit
    → read_chunks limit size cs ≡ ok raw
    → (size + total_bytes cs ≤ limit) × (raw ≡ whole_text cs)
unfolding read_chunks total_bytes whole_text
read_chunks-whole limit size [] raw fits h = (omega (arith, fits), cc)
read_chunks-whole limit size ((bytes, chunk) ∷ cs) raw fits h =
    elim (Bool-cases (ltb limit (size + bytes))) [
      | inl over ↦ cc (rw over at h)
      | inr under ↦
          more (read_chunks limit (size + bytes) cs) (ground arith)
            (λ rest fits_more read. read_chunks-whole limit (size + bytes) cs rest fits_more read)
            (rw under at h)
    ]
  where
    more :
        (r : Outcome HttpError Text)
        → size + bytes ≤ limit
        → ((rest : Text)
            → size + bytes ≤ limit
            → r ≡ ok rest
            → (size + bytes + total_bytes cs ≤ limit) × (rest ≡ whole_text cs))
        → elim r [ err e ↦ err e | ok rest ↦ ok (chunk ++ rest) ] ≡ ok raw
        → (size + (bytes + total_bytes cs) ≤ limit) × (raw ≡ chunk ++ whole_text cs)
    more (err e) under later k = cc
    more (ok rest) under later k =
        let whole = later rest under refl in
        let same : chunk ++ rest ≡ raw = cc in
        (omega (arith, whole.0), sym same ∙ ap (λ t. chunk ++ t) whole.1)

-- The body of a request: none for a method without one; else it is within the limit, and its text
-- is blank or JSON that parses to the body.
abbrev pub BodyOf : Runtime → ℕ → HttpRequest → ℕ → Type 0
BodyOf rt limit req body =
    ((has_body req.method ≡ false) × (body ≡ 0))
    ⊎ ((total_bytes req.chunks ≤ limit)
        × (((trim (whole_text req.chunks) ≡ []) × (body ≡ 0))
            ⊎ (rt.parse_json (trim (whole_text req.chunks)) ≡ some body)))

pub blank : (t : Text) → is_empty t ≡ true → t ≡ []
blank [] h = refl
blank (c ∷ cs) h = cc

parsed_body : (o : Option ℕ) (body : ℕ) → parsed o ≡ ok body → o ≡ some body
parsed_body none body h = cc
parsed_body (some b) body h = cc

pub read_json-BodyOf :
    (rt : Runtime) (limit : ℕ) (req : HttpRequest) (body : ℕ)
    → read_json rt limit req ≡ ok body
    → BodyOf rt limit req body
unfolding read_json
read_json-BodyOf rt limit req body h = elim (Bool-cases (has_body req.method)) [
  | inr bodiless ↦ inl (bodiless, cc (rw bodiless at h))
  | inl bodied ↦ inr (text_read (read_chunks limit 0 req.chunks) refl (rw bodied at h))
]
  where
    text_read :
        (r : Outcome HttpError Text)
        → read_chunks limit 0 req.chunks ≡ r
        → elim r [
          | err e ↦ err e
          | ok raw ↦ if is_empty (trim raw) then ok 0 else parsed (rt.parse_json (trim raw))
        ]
          ≡ ok body
        → (total_bytes req.chunks ≤ limit)
          × (((trim (whole_text req.chunks) ≡ []) × (body ≡ 0))
              ⊎ (rt.parse_json (trim (whole_text req.chunks)) ≡ some body))
    text_read (err e) read k = cc
    text_read (ok raw) read k =
        let whole = read_chunks-whole limit 0 req.chunks raw (omega arith) read in
        (
          omega (arith, whole.0),
          subst (λ t. ((trim t ≡ []) × (body ≡ 0)) ⊎ (rt.parse_json (trim t) ≡ some body)) whole.1
              (elim (Bool-cases (is_empty (trim raw))) [
                | inl empty ↦ inl (blank (trim raw) empty, cc (rw empty at k))
                | inr given ↦ inr (parsed_body (rt.parse_json (trim raw)) body (rw given at k))
              ]),
        )
