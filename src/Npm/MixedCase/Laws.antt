-- ===== src/Npm/MixedCase/Laws.antt =====
-- Names in ASCII through base32 and back, and the characters that stand in a URL as they are
-- (crates/module_fetcher/src/npm/cache.rs).
use server_based_deno.Base.{
  ℕ, ◌<◌, ◌≡◌, refl, Bool, true, ◌&&◌, ◌||◌, some, List, [], ◌∷◌, Text, leb, nat_beq, is_digit, All,
  All-map, Without, to_lowercase, arith,
}
use server_based_deno.Npm.MixedCase.{
  Base32, as_bytes, utf8_from, from_utf8, mixed_case_package_name_encode,
  mixed_case_package_name_decode,
}

-- Letters, digits and `-` `.` `_` `~` `+` `@`, and the slash between the segments.
abbrev pub is_url_safe : ℕ → Bool
is_url_safe c =
    (leb b'a' c && leb c b'z')
    || (leb b'A' c && leb c b'Z')
    || is_digit c
    || nat_beq c b'-'
    || nat_beq c b'.'
    || nat_beq c b'_'
    || nat_beq c b'~'
    || nat_beq c b'+'
    || nat_beq c b'@'
    || nat_beq c b'/'

abbrev pub IsUrlSafe : Text → Type 0
IsUrlSafe s = All (λ c. is_url_safe c ≡ true) s

-- `A` to `Z` and `2` to `7`.
abbrev pub is_base32 : ℕ → Bool
is_base32 c = (leb b'A' c && leb c b'Z') || (leb b'2' c && leb c b'7')

-- What the crate documents: it writes the alphabet of RFC 4648, and reads its own output whatever
-- the case of the letters.
pub record Base32Laws (base32 : Base32) : Type 0 where
  pub alphabet : (bytes : List ℕ) → All (λ c. is_base32 c ≡ true) (base32.encode bytes)
  pub reads :
      (bytes : List ℕ)
      → All (λ b. b < 256) bytes
      → base32.decode (to_lowercase (base32.encode bytes)) ≡ some bytes

as_bytes-ascii : (s : Text) → All (λ c. c < 128) s → as_bytes s ≡ s
unfolding as_bytes
as_bytes-ascii [] h = refl
as_bytes-ascii (c ∷ s) h = ground (arith, as_bytes-ascii s h.1)

utf8_from-ascii : (s : Text) → All (λ c. c < 128) s → utf8_from 0 0 0 s ≡ some s
unfolding utf8_from
utf8_from-ascii [] h = refl
utf8_from-ascii (c ∷ s) h = ground (arith, utf8_from-ascii s h.1)

from_utf8-ascii : (s : Text) → All (λ c. c < 128) s → from_utf8 s ≡ some s
unfolding from_utf8
from_utf8-ascii s h = utf8_from-ascii s h

pub IsUrlSafe-ascii : (s : Text) → IsUrlSafe s → All (λ c. c < 128) s
IsUrlSafe-ascii s h = All-map s (λ c safe. ground (arith, safe)) h

lower-safe : (s : Text) → All (λ c. is_base32 c ≡ true) s → IsUrlSafe (to_lowercase s)
unfolding to_lowercase
lower-safe [] h = tt
lower-safe (c ∷ s) h = (ground (arith, h.0), lower-safe s h.1)

lower-no_slash : (s : Text) → All (λ c. is_base32 c ≡ true) s → Without b'/' (to_lowercase s)
unfolding to_lowercase
lower-no_slash [] h = tt
lower-no_slash (c ∷ s) h = (ground (arith, h.0), lower-no_slash s h.1)

module _ (base32 : Base32) (laws : Base32Laws base32) where
  pub mixed_case-IsUrlSafe : (name : Text) → IsUrlSafe (mixed_case_package_name_encode base32 name)
  unfolding mixed_case_package_name_encode
  mixed_case-IsUrlSafe name = lower-safe _ (laws.alphabet (as_bytes name))

  pub mixed_case-no_slash :
      (name : Text) → Without b'/' (mixed_case_package_name_encode base32 name)
  unfolding mixed_case_package_name_encode
  mixed_case-no_slash name = lower-no_slash _ (laws.alphabet (as_bytes name))

  pub decode-encode :
      (name : Text)
      → IsUrlSafe name
      → mixed_case_package_name_decode base32 (mixed_case_package_name_encode base32 name)
        ≡ some name
  unfolding mixed_case_package_name_encode mixed_case_package_name_decode
  decode-encode name safe =
      let ascii = IsUrlSafe-ascii name safe in
      let small : All (λ b. b < 256) name = All-map name (λ c h. omega (arith, h)) ascii in
      rw (as_bytes-ascii name ascii) (rw (laws.reads name small) (from_utf8-ascii name ascii))
