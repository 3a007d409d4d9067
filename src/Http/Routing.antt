-- ===== src/Http/Routing.antt =====
-- The JSON service (packages/shared/http.mjs and tenant.mjs): routes, bodies, tenants, internal
-- authentication, and the order in which a request meets them.
use stablecoin_treasury.Prelude.{
  ℕ, ◌+◌, Bool, false, not, ◌&&◌, ◌||◌, Option, none, some, List, [], ◌∷◌, ◌++◌, ltb, leb, ◌==◌,
  if◌then◌else◌, length, select, any, ◌-◌, ◌*◌,
}
use stablecoin_treasury.Prelude.Strings.{Text, text_eq, split, trim, is_empty}
use stablecoin_treasury.Prelude.Outcome.{Outcome, ok, err}

-- What the runtime provides: `decodeURIComponent` and `JSON.parse` (`none` where they throw),
-- `JSON.stringify`, and HMAC-SHA-256 of a text under a key. Parsed JSON is a number that stands
-- for the value; 0 is `{}`.
pub record Runtime : Type 0 where
  pub decode_uri : Text → Option Text
  pub parse_json : Text → Option ℕ
  pub stringify : ℕ → Text
  pub hmac : Text → Text → Text

pub data HttpError : Type 0 where
  payload_too_large invalid_json tenant_required invalid_tenant : HttpError
  internal_auth_required internal_error : HttpError

-- A route, with a number for its handler.
pub record Route : Type 0 where
  pub method : Text
  pub pattern : Text
  pub is_public : Bool
  pub handler : ℕ

-- The body of a request arrives in chunks, each with its size in bytes.
pub record HttpRequest : Type 0 where
  pub method : Text
  pub path : Text
  pub chunks : List (ℕ × Text)
  pub tenant_header : Text
  pub signature : Text
  pub acting_user : Text

-- `split("/").filter(Boolean)`
unfoldable pub path_parts : Text → List Text
unfolding split
path_parts path = select (λ part. not (is_empty part)) (split b'/' path)

abbrev starts_param : Text → Bool
starts_param [] = false
starts_param (c ∷ cs) = c == b':'

abbrev tail_text : Text → Text
tail_text [] = []
tail_text (c ∷ cs) = cs

abbrev add_param :
    Text
    → Option Text
    → Outcome HttpError (Option (List (Text × Text)))
    → Outcome HttpError (Option (List (Text × Text)))
add_param name none rest = err internal_error
add_param name (some value) (err e) = err e
add_param name (some value) (ok none) = ok none
add_param name (some value) (ok (some params)) = ok (some ((name, value) ∷ params))

-- The loop of `matchPath`; `none` is no match.
unfoldable pub match_parts :
    Runtime → List Text → List Text → Outcome HttpError (Option (List (Text × Text)))
unfolding text_eq
match_parts rt [] [] = ok (some [])
match_parts rt [] (q ∷ qs) = ok none
match_parts rt (p ∷ ps) [] = ok none
match_parts rt (p ∷ ps) (q ∷ qs) =
    let rest = match_parts rt ps qs in
    if starts_param p
    then add_param (tail_text p) (rt.decode_uri q) rest
    else if text_eq p q
    then rest
    else ok none

-- `matchPath`
unfoldable pub match_path : Runtime → Text → Text → Outcome HttpError (Option (List (Text × Text)))
unfolding path_parts match_parts
match_path rt pattern pathname =
    let patterns = path_parts pattern in
    let parts = path_parts pathname in
    if length patterns == length parts then match_parts rt patterns parts else ok none

abbrev pub or_next :
    Route
    → Outcome HttpError (Option (List (Text × Text)))
    → Outcome HttpError (Option (Route × List (Text × Text)))
    → Outcome HttpError (Option (Route × List (Text × Text)))
or_next r (err e) rest = err e
or_next r (ok none) rest = rest
or_next r (ok (some params)) rest = ok (some (r, params))

-- `matchRoute`
unfoldable pub match_route :
    Runtime → List Route → Text → Text → Outcome HttpError (Option (Route × List (Text × Text)))
unfolding match_path text_eq
match_route rt [] method pathname = ok none
match_route rt (r ∷ rs) method pathname =
    let rest = match_route rt rs method pathname in
    if not (text_eq r.method method)
    then rest
    else or_next r (match_path rt r.pattern pathname) rest

-- The loop of `readJson` over the chunks of a body.
unfoldable pub read_chunks : ℕ → ℕ → List (ℕ × Text) → Outcome HttpError Text
read_chunks limit size [] = ok []
read_chunks limit size ((bytes, chunk) ∷ chunks) =
    let rest = read_chunks limit (size + bytes) chunks in
    if ltb limit (size + bytes)
    then err payload_too_large
    else elim rest [ err e ↦ err e | ok more ↦ ok (chunk ++ more) ]

abbrev pub parsed : Option ℕ → Outcome HttpError ℕ
parsed none = err invalid_json
parsed (some body) = ok body

unfoldable pub has_body : Text → Bool
unfolding text_eq
has_body method = any (text_eq method) (
    (b'P' ∷ b'O' ∷ b'S' ∷ b'T' ∷ [])
    ∷ (b'P' ∷ b'U' ∷ b'T' ∷ [])
    ∷ (b'P' ∷ b'A' ∷ b'T' ∷ b'C' ∷ b'H' ∷ [])
    ∷ [])

-- `readJson`
unfoldable pub read_json : Runtime → ℕ → HttpRequest → Outcome HttpError ℕ
unfolding has_body read_chunks trim
read_json rt limit req =
    if not (has_body req.method) then ok 0 else elim (read_chunks limit 0 req.chunks) [
      | err e ↦ err e
      | ok raw ↦ if is_empty (trim raw) then ok 0 else parsed (rt.parse_json (trim raw))
    ]

-- A hexadecimal digit of either case.
abbrev pub is_hex : ℕ → Bool
is_hex c = leb 48 c && leb c 57 || leb 97 c && leb c 102 || leb 65 c && leb c 70

abbrev pub hex_part : ℕ → Text → Bool
hex_part n t = length t == n && not (any (λ c. not (is_hex c)) t)

-- UUID_RE
abbrev pub uuid_parts : List Text → Bool
uuid_parts (a ∷ b ∷ c ∷ d ∷ e ∷ []) =
    hex_part 8 a && hex_part 4 b && hex_part 4 c && hex_part 4 d && hex_part 12 e
uuid_parts _ = false

unfoldable pub is_uuid : Text → Bool
unfolding split
is_uuid t = uuid_parts (split b'-' t)

-- `tenantIdFromHeaders`; the first argument is DEFAULT_TENANT_ID, the second whether the header
-- is required.
unfoldable pub tenant_id_from_headers : Text → Bool → Text → Outcome HttpError Text
unfolding trim is_uuid
tenant_id_from_headers default required header =
    let tenant = trim header in
    if is_empty tenant
    then (if required then err tenant_required else ok default)
    else if not (is_uuid tenant)
    then err invalid_tenant
    else ok tenant

-- The text that is signed; the fields of a request are those that it is sent with.
unfoldable pub signed_text : Runtime → Text → Text → ℕ → Text → Text
signed_text rt method path body acting_user =
    method ++ b'|' ∷ (path ++ b'|' ∷ (rt.stringify body ++ b'|' ∷ acting_user))

-- `signInternalRequest`
unfoldable pub sign_internal_request : Runtime → Text → Text → Text → ℕ → Text → Text
unfolding signed_text
sign_internal_request rt secret method path body acting_user =
    rt.hmac secret (signed_text rt method path body acting_user)

-- `Buffer.from(text, "hex")`: the bytes up to the first pair that is no two digits.
abbrev hex_value : ℕ → ℕ
hex_value c = if leb c 57 then c - 48 else if leb c 70 then c - 55 else c - 87

unfoldable pub hex_bytes : Text → List ℕ
hex_bytes [] = []
hex_bytes (a ∷ []) = []
hex_bytes (a ∷ b ∷ more) =
    let rest = hex_bytes more in
    if is_hex a && is_hex b then (hex_value a * 16 + hex_value b) ∷ rest else []

-- `verifyInternalRequest`
unfoldable pub verify_internal_request : Runtime → Text → Text → Text → ℕ → Text → Text → Bool
unfolding signed_text text_eq hex_bytes
verify_internal_request rt secret method path body signature acting_user =
    text_eq (hex_bytes (rt.hmac secret (signed_text rt method path body acting_user)))
      (hex_bytes signature)
