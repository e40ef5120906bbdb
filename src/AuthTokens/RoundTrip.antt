-- ===== src/AuthTokens/RoundTrip.antt =====
-- Writing and reading a list of tokens (crates/module_fetcher/src/auth_tokens.rs).
use server_based_deno.Base.{
  split-join, ◌≡◌, refl, some, List, [], ◌∷◌, ◌++◌, map, Text, All, Without, join, rsplit_once,
  rsplit_once-append, rsplit_once-Without, to_lowercase,
}
use server_based_deno.AuthTokens.{
  AuthTokenData, bearer, basic, AuthToken, token_data, parse_tokens, new,
}

abbrev pub written_data : AuthTokenData → Text
written_data (bearer token) = token
written_data (basic username password) = username ++ b':' ∷ password

-- `{token}@{hostname}`, as the environment variable has it.
abbrev pub written : AuthToken → Text
written t = written_data t.token ++ b'@' ∷ t.host

-- A bearer token has no colon, and a password none; the user name may.
abbrev pub IsTokenData : AuthTokenData → Type 0
IsTokenData (bearer token) = Without b':' token
IsTokenData (basic username password) = Without b':' password

-- The host is in lower case and has no `@`; nothing holds a semicolon.
pub record IsWritten (t : AuthToken) : Type 0 where
  pub lower_case : to_lowercase t.host ≡ t.host
  pub plain_host : Without b'@' t.host
  pub plain_data : IsTokenData t.token
  pub no_semicolon : Without b';' (written t)

token_data-written :
    (d : AuthTokenData)
    → IsTokenData d
    → token_data (written_data d) (rsplit_once b':' (written_data d)) ≡ d
token_data-written (bearer token) h = rw (rsplit_once-Without b':' token h) refl
token_data-written (basic username password) h =
    rw (rsplit_once-append b':' username password h) refl

parse_tokens-written : (ts : List AuthToken) → All IsWritten ts → parse_tokens (map written ts) ≡ ts
unfolding parse_tokens
parse_tokens-written [] h = refl
parse_tokens-written (t ∷ ts) (h, hs) =
    rw (rsplit_once-append b'@' (written_data t.token) t.host h.plain_host) (
      rw (token_data-written t.token h.plain_data)
        (rw h.lower_case (rw (parse_tokens-written ts hs) refl)))

no_semicolons : (ts : List AuthToken) → All IsWritten ts → All (Without b';') (map written ts)
no_semicolons [] h = tt
no_semicolons (t ∷ ts) (h, hs) = (h.no_semicolon, no_semicolons ts hs)

-- The tokens of a variable `{token}@{hostname};…` are read as they were written and in their order:
-- bearer tokens without a colon, and `username:password` with at most the user name holding one.
pub new-written :
    (t : AuthToken) (ts : List AuthToken)
    → All IsWritten (t ∷ ts)
    → new (some (join b';' (map written (t ∷ ts)))) ≡ t ∷ ts
unfolding new
new-written t ts h =
    let parts = no_semicolons (t ∷ ts) h in
    rw (split-join b';' (written t) (map written ts) parts.0 parts.1)
      (parse_tokens-written (t ∷ ts) h)
