-- ===== src/AuthTokens/Examples.antt =====
-- Tokens of an environment variable, and the requests that they go with.
use server_based_deno.Base.{
  ◌≡◌, refl, none, some, [], ◌∷◌, map, codes, join, to_lowercase, ends_with, text_beq, arith,
}
use server_based_deno.AuthTokens.{AuthToken, bearer, basic, ModuleSpecifier, new, get}
use server_based_deno.AuthTokens.RoundTrip.{written, IsWritten, new-written}
use server_based_deno.AuthTokens.Match.{Authority, Sends, get-Sends}

abbrev land : AuthToken
land = record { host = codes "deno.land"; token = bearer (codes "abc@123") }

abbrev example : AuthToken
example = record { host = codes "example.com"; token = basic (codes "a:b") (codes "c") }

land-IsWritten : IsWritten land
unfolding to_lowercase
land-IsWritten = record {
  lower_case = refl;
  plain_host = ground arith;
  plain_data = ground arith;
  no_semicolon = ground arith;
}

example-IsWritten : IsWritten example
unfolding to_lowercase
example-IsWritten = record {
  lower_case = refl;
  plain_host = ground arith;
  plain_data = ground arith;
  no_semicolon = ground arith;
}

new-written_example :
    new (some (join b';' (map written (land ∷ example ∷ [])))) ≡ land ∷ example ∷ []
new-written_example = new-written land (example ∷ []) (land-IsWritten, (example-IsWritten, tt))

abbrev www : ModuleSpecifier
www = record { host_str = some (codes "www.deno.land"); port = none }

get-Sends_example :
    Sends (codes "www.deno.land") (example ∷ land ∷ []) (get (example ∷ land ∷ []) www)
get-Sends_example =
    get-Sends (example ∷ land ∷ []) www (codes "www.deno.land")
      (Authority.host_only (codes "www.deno.land") refl refl)

www_gets_land : get (example ∷ land ∷ []) www ≡ some land
unfolding get ends_with text_beq to_lowercase
www_gets_land = refl

port_has_none :
    get (land ∷ []) (record { host_str = some (codes "deno.land"); port = some (codes "8080") })
    ≡ none
unfolding get ends_with text_beq to_lowercase
port_has_none = refl
