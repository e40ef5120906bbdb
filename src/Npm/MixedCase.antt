-- ===== src/Npm/MixedCase.antt =====
-- Names with capitals as folders: `mixed_case_package_name_encode` and
-- `mixed_case_package_name_decode` of crates/module_fetcher/src/npm/cache.rs, over the crate base32
-- as a parameter. Strings are taken to bytes and back in UTF-8, as the standard library does.
pub mod Laws
use mathlib.Core.Option
use server_based_deno.Base.{
  ℕ, zero, suc, ◌+◌, ◌-◌, ◌*◌, ◌/◌, ◌%◌, Bool, ◌&&◌, not, Option, none, some, List, [], ◌∷◌, ◌++◌,
  Text, ltb, leb, nat_beq, to_lowercase, if◌then◌else◌,
}

-- base32 in the alphabet of RFC 4648, without padding.
pub record Base32 : Type 0 where
  pub encode : List ℕ → Text
  pub decode : Text → Option (List ℕ)

-- The bytes of a character.
abbrev pub char_bytes : ℕ → List ℕ
char_bytes c =
    if ltb c 128
    then c ∷ []
    else (if ltb c 2048
        then (192 + c / 64) ∷ (128 + c % 64) ∷ []
        else (if ltb c 65536
            then (224 + c / 4096) ∷ (128 + c / 64 % 64) ∷ (128 + c % 64) ∷ []
            else (240 + c / 262144)
              ∷ (128 + c / 4096 % 64)
              ∷ (128 + c / 64 % 64)
              ∷ (128 + c % 64)
              ∷ []))

-- `str::as_bytes`
unfoldable pub as_bytes : Text → List ℕ
as_bytes [] = []
as_bytes (c ∷ s) = char_bytes c ++ as_bytes s

-- A code point that is not a surrogate.
abbrev pub is_char : ℕ → Bool
is_char c = ltb c 1114112 && not (leb 55296 c && ltb c 57344)

abbrev pub cons : ℕ → Option Text → Option Text
cons c s = Option.map (λ (t : Text). c ∷ t) s

-- How many bytes of a character are still to come, its bits so far, and the least character that is
-- written in so many bytes.
unfoldable pub utf8_from : ℕ → ℕ → ℕ → List ℕ → Option Text
utf8_from zero value least [] = some []
utf8_from (suc k) value least [] = none
utf8_from zero value least (b ∷ rest) =
    let single = cons b (utf8_from 0 0 0 rest) in
    let two = utf8_from 1 (b - 192) 128 rest in
    let three = utf8_from 2 (b - 224) 2048 rest in
    let four = utf8_from 3 (b - 240) 65536 rest in
    if ltb b 128
    then single
    else (if ltb b 192
        then none
        else (if ltb b 224
            then two
            else (if ltb b 240 then three else (if ltb b 248 then four else none))))
utf8_from (suc zero) value least (b ∷ rest) =
    let c = value * 64 + (b - 128) in
    let later = cons c (utf8_from 0 0 0 rest) in
    if leb 128 b && ltb b 192 && leb least c && is_char c then later else none
utf8_from (suc (suc k)) value least (b ∷ rest) =
    let later = utf8_from (suc k) (value * 64 + (b - 128)) least rest in
    if leb 128 b && ltb b 192 then later else none

-- `String::from_utf8`
unfoldable pub from_utf8 : List ℕ → Option Text
unfolding utf8_from
from_utf8 bytes = utf8_from 0 0 0 bytes

abbrev pub then_from_utf8 : Option (List ℕ) → Option Text
then_from_utf8 none = none
then_from_utf8 (some bytes) = from_utf8 bytes

module _ (base32 : Base32) where
  unfoldable pub mixed_case_package_name_encode : Text → Text
  unfolding as_bytes
  mixed_case_package_name_encode name = to_lowercase (base32.encode (as_bytes name))

  unfoldable pub mixed_case_package_name_decode : Text → Option Text
  unfolding from_utf8
  mixed_case_package_name_decode name = then_from_utf8 (base32.decode name)
