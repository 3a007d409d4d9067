-- ===== src/Access/SentBack.antt =====
-- A browser sends the session token back.
use stablecoin_treasury.Prelude.{
  ℕ, ◌≡◌, Bool, true, false, some, [], ◌∷◌, ◌++◌, refl, ap, ◌∙◌, ◌==◌, All-append,
}
use stablecoin_treasury.Prelude.Strings.{
  Text, text_eq, before, contains, after, split, trim, is_empty, Free, trim_start, trim_end,
  split-append, split-Free, before-append, trim-NoSpace,
}
use stablecoin_treasury.Access.Cookies.{
  session_cookie_name, csrf_cookie_name, build_cookie, cookie_max_age, session_cookie_header,
  csrf_cookie_header, add_cookie, parse_parts, parse_cookies, lookup_cookie,
  session_token_from_cookie, kept, sent_back, CookieText,
}

session_name-Free : (secure : Bool) → Free b';' (session_cookie_name secure)
session_name-Free true = (
  refl,
  (
    refl,
    (
      refl,
      (refl, (refl, (refl, (refl, (refl, (refl, (refl, (refl, (refl, (refl, (refl, tt))))))))))),
    ),
  ),
)
session_name-Free false = (refl, (refl, (refl, (refl, (refl, (refl, (refl, tt)))))))

csrf_name-Free : (secure : Bool) → Free b';' (csrf_cookie_name secure)
csrf_name-Free true =
    (refl, (refl, (refl, (refl, (refl, (refl, (refl, (refl, (refl, (refl, (refl, tt)))))))))))
csrf_name-Free false = (refl, (refl, (refl, (refl, tt))))

before-through : (sep : ℕ) (s t : Text) → Free sep s → before sep (s ++ t) ≡ s ++ before sep t
unfolding before
before-through sep [] t h = refl
before-through sep (c ∷ cs) t h = rw (h.0, before-through sep cs t h.1) refl

kept-build_cookie :
    (secure : Bool) (name value : Text) (age : ℕ) (http_only : Bool)
    → Free b';' name
    → Free b';' value
    → kept (build_cookie secure name value age http_only) ≡ name ++ b'=' ∷ value
unfolding kept build_cookie before
kept-build_cookie secure name value age http_only hn hv =
    rw (before-through b';' name _ hn, before-append b';' value _ hv) refl

pair-Free :
    (name value : Text) → Free b';' name → Free b';' value → Free b';' (name ++ b'=' ∷ value)
pair-Free name value hn hv = All-append (λ c. (c == b';') ≡ false) name (b'=' ∷ value) hn (refl, hv)

-- The two pairs of a header.
split_pairs :
    (secure : Bool) (token csrf : Text)
    → CookieText token
    → CookieText csrf
    → split b';' (
        (session_cookie_name secure ++ b'=' ∷ token)
        ++ b';' ∷ b' ' ∷ (csrf_cookie_name secure ++ b'=' ∷ csrf))
      ≡ (session_cookie_name secure ++ b'=' ∷ token)
        ∷ (b' ' ∷ (csrf_cookie_name secure ++ b'=' ∷ csrf))
        ∷ []
split_pairs secure token csrf ht hc =
    split-append b';' (session_cookie_name secure ++ b'=' ∷ token)
      (b' ' ∷ (csrf_cookie_name secure ++ b'=' ∷ csrf))
      (pair-Free (session_cookie_name secure) token (session_name-Free secure) ht.0)
    ∙ ap (λ parts. (session_cookie_name secure ++ b'=' ∷ token) ∷ parts)
        (split-Free b';' (b' ' ∷ (csrf_cookie_name secure ++ b'=' ∷ csrf))
          (refl, pair-Free (csrf_cookie_name secure) csrf (csrf_name-Free secure) hc.0))

token_of_parts :
    (secure : Bool) (token csrf : Text)
    → CookieText token
    → CookieText csrf
    → parse_parts
        ((session_cookie_name secure ++ b'=' ∷ token)
          ∷ (b' ' ∷ (csrf_cookie_name secure ++ b'=' ∷ csrf))
          ∷ [])
        []
      ≡ (csrf_cookie_name secure, csrf) ∷ (session_cookie_name secure, token) ∷ []
unfolding parse_parts add_cookie contains before after trim trim_start trim_end
token_of_parts true token csrf ht hc = rw (trim-NoSpace token ht.1, trim-NoSpace csrf hc.1) refl
token_of_parts false token csrf ht hc = rw (trim-NoSpace token ht.1, trim-NoSpace csrf hc.1) refl

parse_sent_back :
    (secure : Bool) (token csrf : Text) (expires_at now : ℕ)
    → CookieText token
    → CookieText csrf
    → parse_cookies (
        sent_back
          (session_cookie_header secure token expires_at now)
          (csrf_cookie_header secure csrf expires_at now))
      ≡ (csrf_cookie_name secure, csrf) ∷ (session_cookie_name secure, token) ∷ []
unfolding sent_back session_cookie_header csrf_cookie_header parse_cookies
parse_sent_back secure token csrf expires_at now ht hc =
    let age = cookie_max_age expires_at now in
    rw
      (
        kept-build_cookie secure (session_cookie_name secure) token age true
            (session_name-Free secure) ht.0,
        kept-build_cookie secure (csrf_cookie_name secure) csrf age false (csrf_name-Free secure)
            hc.0,
        split_pairs secure token csrf ht hc,
      )
      (token_of_parts secure token csrf ht hc)

sent_back-header :
    (secure : Bool) (token csrf : Text) (expires_at now : ℕ)
    → is_empty (
        sent_back
          (session_cookie_header secure token expires_at now)
          (csrf_cookie_header secure csrf expires_at now))
      ≡ false
unfolding sent_back session_cookie_header build_cookie kept before
sent_back-header true token csrf expires_at now = refl
sent_back-header false token csrf expires_at now = refl

token_looked_up :
    (secure : Bool) (token csrf : Text) (header : Text)
    → is_empty token ≡ false
    → is_empty header ≡ false
    → parse_cookies header
      ≡ (csrf_cookie_name secure, csrf) ∷ (session_cookie_name secure, token) ∷ []
    → session_token_from_cookie (some header) ≡ some token
unfolding session_token_from_cookie lookup_cookie text_eq
token_looked_up true token csrf header ht hh e = rw (hh, e, ht) refl
token_looked_up false token csrf header ht hh e = rw (hh, e, e, ht) refl

-- The cookies that a login sets come back as headers from which the same session token is read.
pub session_token-sent_back :
    (secure : Bool) (token csrf : Text) (expires_at now : ℕ)
    → CookieText token
    → CookieText csrf
    → session_token_from_cookie (
        some (
          sent_back
            (session_cookie_header secure token expires_at now)
            (csrf_cookie_header secure csrf expires_at now)))
      ≡ some token
session_token-sent_back secure token csrf expires_at now ht hc =
    token_looked_up secure token csrf
      (sent_back (session_cookie_header secure token expires_at now)
        (csrf_cookie_header secure csrf expires_at now))
      ht.2 (sent_back-header secure token csrf expires_at now)
      (parse_sent_back secure token csrf expires_at now ht hc)
