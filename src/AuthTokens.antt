-- ===== src/AuthTokens.antt =====
-- Tokens for private modules: crates/module_fetcher/src/auth_tokens.rs. A specifier is taken for
-- its host and the text of its port; base64 is a parameter.
pub mod RoundTrip
pub mod Match
mod Examples
use server_based_deno.Base.{
  Bool, true, false, Option, none, some, List, [], ◌∷◌, ◌++◌, Text, codes, split, rsplit_once,
  to_lowercase, ends_with, if◌then◌else◌,
}

pub data AuthTokenData : Type 0 where
  bearer : Text → AuthTokenData
  basic : Text → Text → AuthTokenData

pub record AuthToken : Type 0 where
  pub host : Text
  pub token : AuthTokenData

pub record ModuleSpecifier : Type 0 where
  pub host_str : Option Text
  pub port : Option Text

-- `Display`
unfoldable pub display : (Text → Text) → AuthTokenData → Text
display encode (bearer token) = codes "Bearer " ++ token
display encode (basic username password) = codes "Basic " ++ encode (username ++ b':' ∷ password)

-- `token.rsplitn(2, ':')` where there is a colon.
abbrev pub token_data : Text → Option (Text × Text) → AuthTokenData
token_data token none = bearer token
token_data token (some (username, password)) = basic username password

abbrev pub push_token : Option (Text × Text) → List AuthToken → List AuthToken
push_token none tokens = tokens
push_token (some (token, host)) tokens =
    record { host = to_lowercase host; token = token_data token (rsplit_once b':' token) } ∷ tokens

-- The loop over the parts; a part without `@` is discarded.
unfoldable pub parse_tokens : List Text → List AuthToken
parse_tokens [] = []
parse_tokens (token_str ∷ rest) = push_token (rsplit_once b'@' token_str) (parse_tokens rest)

unfoldable pub new : Option Text → List AuthToken
unfolding parse_tokens
new none = []
new (some tokens_str) = parse_tokens (split b';' tokens_str)

abbrev pub with_port : Text → Option Text → Text
with_port host none = host
with_port host (some port) = host ++ b':' ∷ port

abbrev pub hostname : ModuleSpecifier → Option Text
hostname s = elim s.host_str [ none ↦ none | some host ↦ some (with_port host s.port) ]

abbrev pub is_for : Text → AuthToken → Bool
is_for name t = ends_with t.host (to_lowercase name)

abbrev pub matched : Option Text → AuthToken → Bool
matched none t = false
matched (some name) t = is_for name t

-- `find_map`; without a host no token is found.
unfoldable pub get : List AuthToken → ModuleSpecifier → Option AuthToken
get [] specifier = none
get (t ∷ tokens) specifier =
    let later = get tokens specifier in if matched (hostname specifier) t then some t else later
