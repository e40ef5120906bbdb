-- ===== src/Npm/Cache/Examples.antt =====
-- Folders of packages, with a code of bytes in the alphabet of base32.
use server_based_deno.Base.{
  ℕ, zero, suc, ◌+◌, ◌-◌, ◌/◌, ◌%◌, ◌≡◌, refl, ap, ◌∙◌, Bool, true, Option, none, some, List, [],
  ◌∷◌, ◌++◌, Text, codes, Without, nat_beq, ltb, All, join, split, to_lowercase, text_beq,
  print_usize, arith, Bool-cases, inl, inr, if◌then◌else◌,
}
use mathlib.Core.Option
use server_based_deno.Npm.Id.Examples.{two_versions}
use server_based_deno.Npm.Snapshot.{NpmPackageCacheFolderId}
use server_based_deno.Npm.Snapshot.Names.{IsPackageName}
use server_based_deno.Npm.MixedCase.{Base32, as_bytes, utf8_from, from_utf8}
use server_based_deno.Npm.MixedCase.Laws.{is_url_safe, IsUrlSafe, is_base32, Base32Laws}
use server_based_deno.Npm.Cache.{
  UrlPaths, relative_url, package_name_folder, package_folder_for_id,
  maybe_resolve_package_folder_id_from_specifier,
}
use server_based_deno.Npm.Cache.Urls.{UrlLaws, IsPrinted}
use server_based_deno.Npm.Cache.Folders.{folder_id_read_back}

-- A byte is so many `A` and then a `B`.
abbrev ones : ℕ → Text → Text
ones zero rest = b'B' ∷ rest
ones (suc n) rest = b'A' ∷ ones n rest

abbrev tally : List ℕ → Text
tally [] = []
tally (b ∷ bytes) = ones b (tally bytes)

abbrev counted : ℕ → Text → Option (List ℕ)
counted zero [] = some []
counted (suc k) [] = none
counted k (c ∷ s) =
    let later = Option.map (λ (l : List ℕ). k ∷ l) (counted 0 s) in
    let more = counted (suc k) s in if nat_beq c b'a' then more else later

abbrev tallying : Base32
tallying = record { encode = tally; decode = counted 0 }

counted-ones :
    (k n : ℕ) (rest : Text) (l : List ℕ)
    → counted 0 (to_lowercase rest) ≡ some l
    → counted k (to_lowercase (ones n rest)) ≡ some ((n + k) ∷ l)
unfolding to_lowercase
counted-ones zero zero rest l h = rw h refl
counted-ones (suc k) zero rest l h = rw h (ap (λ (m : ℕ). some (m ∷ l)) (omega arith))
counted-ones zero (suc n) rest l h =
    counted-ones 1 n rest l h ∙ ap (λ (m : ℕ). some (m ∷ l)) (omega arith)
counted-ones (suc k) (suc n) rest l h =
    counted-ones (suc (suc k)) n rest l h ∙ ap (λ (m : ℕ). some (m ∷ l)) (omega arith)

counted-tally : (bytes : List ℕ) → counted 0 (to_lowercase (tally bytes)) ≡ some bytes
unfolding to_lowercase
counted-tally [] = refl
counted-tally (b ∷ bytes) =
    counted-ones 0 b (tally bytes) bytes (counted-tally bytes)
    ∙ ap (λ (m : ℕ). some (m ∷ bytes)) (omega arith)

ones-base32 :
    (n : ℕ) (rest : Text)
    → All (λ c. is_base32 c ≡ true) rest
    → All (λ c. is_base32 c ≡ true) (ones n rest)
ones-base32 zero rest h = (refl, h)
ones-base32 (suc n) rest h = (refl, ones-base32 n rest h)

tally-base32 : (bytes : List ℕ) → All (λ c. is_base32 c ≡ true) (tally bytes)
tally-base32 [] = tt
tally-base32 (b ∷ bytes) = ones-base32 b (tally bytes) (tally-base32 bytes)

tallying_laws : Base32Laws tallying
tallying_laws = record { alphabet = tally-base32; reads = λ bytes small. counted-tally bytes }

abbrev hex : ℕ → ℕ
hex n = if ltb n 10 then b'0' + n else b'A' + (n - 10)

abbrev percent : Text → Text
percent [] = []
percent (c ∷ s) =
    if is_url_safe c then c ∷ percent s else b'%' ∷ hex (c / 16) ∷ hex (c % 16) ∷ percent s

percent-safe : (s : Text) → IsUrlSafe s → percent s ≡ s
percent-safe [] h = refl
percent-safe (c ∷ s) (safe, h) = rw safe (ap (λ (t : Text). c ∷ t) (percent-safe s h))

Without-percent : (s : Text) → Without b'/' s → Without b'/' (percent s)
Without-percent [] h = tt
Without-percent (c ∷ s) (w, h) = elim (Bool-cases (is_url_safe c)) [
  | inl safe ↦ rw safe (w, Without-percent s h)
  | inr other ↦ rw other (ground arith, (ground arith, (ground arith, Without-percent s h)))
]

abbrev percents : UrlPaths
percents = record { percent_encode = percent }

percents_laws : UrlLaws percents
percents_laws = record { safe = λ s h w. percent-safe s h; no_slash = Without-percent }

abbrev types_copy : NpmPackageCacheFolderId Bool
types_copy = record { nv = (codes "@types/JSON", true); copy_index = 12 }

true-IsPrinted : IsPrinted two_versions true
true-IsPrinted = record {
  reads = refl;
  url_safe = (refl, tt);
  no_underscore = ground arith;
  no_slash = ground arith;
}

abbrev types_json : Text
types_json = codes "@types/JSON"

types_json-IsUrlSafe : IsUrlSafe types_json
types_json-IsUrlSafe =
    (refl, (refl, (refl, (refl, (refl, (refl, (refl, (refl, (refl, (refl, (refl, tt)))))))))))

folder_id_read_back_example :
    maybe_resolve_package_folder_id_from_specifier two_versions tallying (
      some (
        relative_url percents (
          package_folder_for_id two_versions tallying types_copy
          ++ codes "lib" ∷ codes "a b.js" ∷ [])))
    ≡ some types_copy
folder_id_read_back_example =
    folder_id_read_back two_versions tallying tallying_laws percents percents_laws types_copy
      (codes "lib" ∷ codes "a b.js" ∷ [])
      (IsPackageName.scoped (codes "types") (codes "JSON") (ground arith) (ground arith))
      (ground arith) types_json-IsUrlSafe true-IsPrinted (ground arith) (ground arith)

folder_of_scoped :
    relative_url percents (
      package_folder_for_id two_versions tallying
        (record { nv = (codes "@types/json", true); copy_index = 12 })
      ++ codes "a b.js" ∷ [])
    ≡ codes "@types/json/1_12/a%20b.js"
unfolding package_folder_for_id package_name_folder relative_url to_lowercase text_beq print_usize
    split join
folder_of_scoped = refl

two_bytes : from_utf8 (as_bytes (233 ∷ 8364 ∷ 128512 ∷ [])) ≡ some (233 ∷ 8364 ∷ 128512 ∷ [])
unfolding from_utf8 utf8_from as_bytes
two_bytes = refl

overlong_refused : from_utf8 (192 ∷ 175 ∷ []) ≡ none
unfolding from_utf8 utf8_from
overlong_refused = refl
