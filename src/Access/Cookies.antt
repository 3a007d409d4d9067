-- ===== src/Access/Cookies.antt =====
-- Cookies (packages/shared/auth.mjs): the headers that set them and the reading of what comes back.
use stablecoin_treasury.Prelude.{
  ℕ, ◌+◌, ◌-◌, ◌/◌, ◌≡◌, Bool, true, false, not, ◌&&◌, Option, none, some, List, [], ◌∷◌, ◌++◌,
  if◌then◌else◌, find,
}
use stablecoin_treasury.Prelude.Strings.{
  Text, text_eq, before, contains, after, split, trim, is_empty, Free, NoSpace,
}
use stablecoin_treasury.Money.Digits.{print}

-- SESSION_COOKIE_NAME and CSRF_COOKIE_NAME; the argument is SESSION_COOKIE_SECURE.
abbrev pub plain_session : Text
plain_session = b's' ∷ b'e' ∷ b's' ∷ b's' ∷ b'i' ∷ b'o' ∷ b'n' ∷ []

abbrev pub host_session : Text
host_session =
    b'_' ∷ b'_' ∷ b'H' ∷ b'o' ∷ b's' ∷ b't' ∷ b'-' ∷ b's' ∷ b'e' ∷ b's' ∷ b's' ∷ b'i' ∷ b'o' ∷ b'n'
    ∷ []

abbrev pub session_cookie_name : Bool → Text
session_cookie_name true = host_session
session_cookie_name false = plain_session

abbrev pub csrf_cookie_name : Bool → Text
csrf_cookie_name true =
    b'_' ∷ b'_' ∷ b'H' ∷ b'o' ∷ b's' ∷ b't' ∷ b'-' ∷ b'c' ∷ b's' ∷ b'r' ∷ b'f' ∷ []
csrf_cookie_name false = b'c' ∷ b's' ∷ b'r' ∷ b'f' ∷ []

-- "; Path=/; SameSite=Lax; Max-Age=", "; HttpOnly" and "; Secure", each less its "; ".
abbrev path_part : Text
path_part = b'P' ∷ b'a' ∷ b't' ∷ b'h' ∷ b'=' ∷ b'/' ∷ []

abbrev same_site_part : Text
same_site_part =
    b'S' ∷ b'a' ∷ b'm' ∷ b'e' ∷ b'S' ∷ b'i' ∷ b't' ∷ b'e' ∷ b'=' ∷ b'L' ∷ b'a' ∷ b'x' ∷ []

abbrev max_age_part : Text
max_age_part = b'M' ∷ b'a' ∷ b'x' ∷ b'-' ∷ b'A' ∷ b'g' ∷ b'e' ∷ b'=' ∷ []

abbrev http_only_part : Text
http_only_part = b'H' ∷ b't' ∷ b't' ∷ b'p' ∷ b'O' ∷ b'n' ∷ b'l' ∷ b'y' ∷ []

abbrev secure_part : Text
secure_part = b'S' ∷ b'e' ∷ b'c' ∷ b'u' ∷ b'r' ∷ b'e' ∷ []

abbrev then_part : Text → Text → Text
then_part part rest = b';' ∷ b' ' ∷ (part ++ rest)

-- `buildCookie`
unfoldable pub build_cookie : Bool → Text → Text → ℕ → Bool → Text
unfolding print
build_cookie secure name value max_age http_only =
    let end = if secure then then_part secure_part [] else [] in
    let flags = if http_only then then_part http_only_part end else end in
    name
    ++ b'='
      ∷ (value
          ++ then_part path_part
              (then_part same_site_part (then_part max_age_part (print max_age ++ flags))))

-- `cookieMaxAge`: whole seconds, rounded up.
unfoldable pub cookie_max_age : ℕ → ℕ → ℕ
cookie_max_age expires_at now = (expires_at - now + 999) / 1000

-- `sessionCookieHeader` and `csrfCookieHeader`
unfoldable pub session_cookie_header : Bool → Text → ℕ → ℕ → Text
unfolding build_cookie cookie_max_age
session_cookie_header secure token expires_at now =
    build_cookie secure (session_cookie_name secure) token (cookie_max_age expires_at now) true

unfoldable pub csrf_cookie_header : Bool → Text → ℕ → ℕ → Text
unfolding build_cookie cookie_max_age
csrf_cookie_header secure token expires_at now =
    build_cookie secure (csrf_cookie_name secure) token (cookie_max_age expires_at now) false

-- `clearAuthCookieHeaders`
unfoldable pub clear_auth_cookie_headers : Bool → List Text
unfolding build_cookie
clear_auth_cookie_headers secure =
    build_cookie secure (session_cookie_name secure) [] 0 true
    ∷ build_cookie secure (csrf_cookie_name secure) [] 0 false
    ∷ []

-- The loop of `parseCookies`: a part with a name gives a cookie. What was assigned last stands
-- first, so that a search finds it.
unfoldable pub add_cookie : Text → List (Text × Text) → List (Text × Text)
unfolding contains before after trim
add_cookie part cookies =
    if contains b'=' part && not (is_empty (before b'=' part))
    then (trim (before b'=' part), trim (after b'=' part)) ∷ cookies
    else cookies

unfoldable pub parse_parts : List Text → List (Text × Text) → List (Text × Text)
unfolding add_cookie
parse_parts [] cookies = cookies
parse_parts (part ∷ parts) cookies = parse_parts parts (add_cookie part cookies)

unfoldable pub parse_cookies : Text → List (Text × Text)
unfolding split parse_parts
parse_cookies header = parse_parts (split b';' header) []

-- `cookies[name]`, where an empty text counts as none.
abbrev non_empty : Option (Text × Text) → Option Text
non_empty none = none
non_empty (some (name, value)) = if is_empty value then none else some value

unfoldable pub lookup_cookie : Text → List (Text × Text) → Option Text
unfolding text_eq
lookup_cookie name cookies = non_empty (find (λ c. text_eq c.0 name) cookies)

-- `sessionTokenFromCookie`
unfoldable pub session_token_from_cookie : Option Text → Option Text
unfolding parse_cookies lookup_cookie
session_token_from_cookie none = none
session_token_from_cookie (some header) =
    if is_empty header then none else elim (lookup_cookie host_session (parse_cookies header)) [
      | some token ↦ some token
      | none ↦ lookup_cookie plain_session (parse_cookies header)
    ]

-- What a browser keeps of a header that sets a cookie, and what it sends back with two cookies.
unfoldable pub kept : Text → Text
unfolding before
kept header = before b';' header

unfoldable pub sent_back : Text → Text → Text
unfolding kept
sent_back first second = kept first ++ b';' ∷ b' ' ∷ kept second

-- A token as the code draws them: no separator, no white space, at least one unit.
abbrev pub CookieText : Text → Type 0
CookieText t = Free b';' t × NoSpace t × (is_empty t ≡ false)
