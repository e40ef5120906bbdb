-- ===== src/Npm/Cache/Folders.antt =====
-- From the id of a package to its folder and back (crates/module_fetcher/src/npm/cache.rs).
use server_based_deno.Base.{
  ◌<◌, ◌^◌, ◌≡◌, ◌≢◌, refl, sym, ap, ◌∙◌, true, false, none, some, List, [], ◌∷◌, ◌++◌, Text, codes,
  text_keyed, ◌==◌, nat_beq, All, Without, starts_with, strip_prefix, split, join, split_once,
  split-Without, split-append, split-join, split_once-Without, split_once-append, to_lowercase,
  print_usize, parse_usize-print_usize, Without-print_usize, All-append, All-map,
  print_usize-Digits, map, append_assoc, arith, Bool-cases, inl, inr, if◌then◌else◌,
}
use server_based_deno.Npm.{Semver}
use server_based_deno.Npm.Snapshot.{NpmPackageCacheFolderId}
use server_based_deno.Npm.Snapshot.Names.{IsPackageName, plain, scoped}
use server_based_deno.Npm.MixedCase.{Base32, mixed_case_package_name_encode}
use server_based_deno.Npm.MixedCase.Laws.{
  is_url_safe, IsUrlSafe, Base32Laws, mixed_case-IsUrlSafe, mixed_case-no_slash, decode-encode,
}
use server_based_deno.Npm.Cache.{
  UrlPaths, relative_url, package_name_folder, package_folder_for_id, read_version, read_parts,
  decode_first, read_decoded, maybe_resolve_package_folder_id_from_specifier,
}
use server_based_deno.Npm.Cache.Urls.{
  UrlLaws, IsPrinted, StartsWell, All-parts, map-append, url_of_name, read_parts-url, url_head,
}

module _ (sv : Semver) (base32 : Base32) (laws : Base32Laws base32) where
  open sv use {Version, to_string, parse_from_npm}

  -- A version with its copy index, as the last segment of the folder.
  abbrev version_part : NpmPackageCacheFolderId sv.Version → Text
  version_part id =
      if nat_beq id.copy_index 0
      then to_string id.nv.1
      else to_string id.nv.1 ++ b'_' ∷ print_usize id.copy_index

  version_part-no_slash :
      (id : NpmPackageCacheFolderId sv.Version)
      → IsPrinted sv id.nv.1
      → Without b'/' (version_part id)
  version_part-no_slash id printed = elim (Bool-cases (nat_beq id.copy_index 0)) [
    | inl zero_index ↦ rw zero_index printed.no_slash
    | inr copy ↦ rw copy (
        All-append (λ d. d ≢ b'/') (to_string id.nv.1) (b'_' ∷ print_usize id.copy_index)
          printed.no_slash (ground arith, Without-print_usize b'/' id.copy_index refl))
  ]

  read_version-part :
      (id : NpmPackageCacheFolderId sv.Version)
      → IsPrinted sv id.nv.1
      → id.copy_index < 2 ^ 64
      → read_version sv base32 id.nv.0 (version_part id) (split_once b'_' (version_part id))
        ≡ some id
  read_version-part id printed fits = elim (Bool-cases (nat_beq id.copy_index 0)) [
    | inl zero_index ↦
        let index : id.copy_index ≡ 0 = ground arith in
        rw zero_index (
          rw (split_once-Without b'_' (to_string id.nv.1) printed.no_underscore)
            (rw printed.reads (rw (sym index) refl)))
    | inr copy ↦ rw copy (
        rw
          (split_once-append b'_' (to_string id.nv.1) (print_usize id.copy_index)
            printed.no_underscore)
          (rw (parse_usize-print_usize id.copy_index fits) (rw printed.reads refl)))
  ]

  folder_segments :
      (id : NpmPackageCacheFolderId sv.Version)
      → package_folder_for_id sv base32 id
        ≡ package_name_folder sv base32 id.nv.0 ++ version_part id ∷ []
  unfolding package_folder_for_id
  folder_segments id = elim (Bool-cases (nat_beq id.copy_index 0)) [
    | inl zero_index ↦ rw zero_index refl
    | inr copy ↦ rw copy refl
  ]

  resolve_plain :
      (u : Text)
      → starts_with (codes "../") u ≡ false
      → strip_prefix (codes "_") u ≡ none
      → maybe_resolve_package_folder_id_from_specifier sv base32 (some u) ≡ read_parts sv base32 u
  unfolding maybe_resolve_package_folder_id_from_specifier
  resolve_plain u inside bare = rw inside (rw bare refl)

  resolve_encoded :
      (name part : Text) (file : List Text)
      → IsUrlSafe name
      → All (Without b'/') (part ∷ file)
      → maybe_resolve_package_folder_id_from_specifier sv base32
          (some (join b'/' ((b'_' ∷ mixed_case_package_name_encode base32 name) ∷ part ∷ file)))
        ≡ read_parts sv base32 (join b'/' (name ∷ part ∷ file))
  unfolding maybe_resolve_package_folder_id_from_specifier starts_with strip_prefix join
  resolve_encoded name part file safe w =
      rw
        (split-join b'/' (mixed_case_package_name_encode base32 name) (part ∷ file)
          (mixed_case-no_slash base32 laws name) w)
        (rw (decode-encode base32 laws name safe, read_decoded, decode_first) refl)

  lower_folder :
      (name : Text)
      → to_lowercase name == name ≡ true
      → package_name_folder sv base32 name ≡ split b'/' name
  unfolding package_name_folder
  lower_folder name lower = rw lower refl

  mixed_folder :
      (name : Text)
      → to_lowercase name == name ≡ false
      → package_name_folder sv base32 name
        ≡ (b'_' ∷ mixed_case_package_name_encode base32 name) ∷ []
  unfolding package_name_folder
  mixed_folder name mixed = rw mixed refl

  segments_read_back :
      (id : NpmPackageCacheFolderId sv.Version) (file : List Text)
      → IsPackageName id.nv.0
      → StartsWell id.nv.0
      → IsUrlSafe id.nv.0
      → IsPrinted sv id.nv.1
      → id.copy_index < 2 ^ 64
      → All (Without b'/') file
      → maybe_resolve_package_folder_id_from_specifier sv base32
          (some (join b'/' (package_folder_for_id sv base32 id ++ file)))
        ≡ some id
  segments_read_back id file named well safe printed fits wf =
      let wv = version_part-no_slash id printed in
      let parts =
        read_parts-url (version_part id) file wv wf sv base32 id.nv.0 named
        ∙ read_version-part id printed fits in
      let segments : package_folder_for_id sv base32 id ++ file
          ≡ package_name_folder sv base32 id.nv.0 ++ version_part id ∷ file =
        ap (λ l. l ++ file) (folder_segments id)
        ∙ append_assoc (package_name_folder sv base32 id.nv.0) (version_part id ∷ []) file in
      rw segments (elim (Bool-cases (to_lowercase id.nv.0 == id.nv.0)) [
        | inl lower ↦
            let (inside, bare) =
              url_head (version_part id) file wv wf sv base32 id.nv.0 named well in
            rw (lower_folder id.nv.0 lower) (resolve_plain _ inside bare ∙ parts)
        | inr mixed ↦ rw (mixed_folder id.nv.0 mixed) (
            resolve_encoded id.nv.0 (version_part id) file safe (wv, wf)
            ∙ ap (read_parts sv base32)
                (sym (url_of_name (version_part id) file wv wf id.nv.0 named))
            ∙ parts)
      ])

  module _ (urls : UrlPaths) (url_laws : UrlLaws urls) where
    version_part-IsUrlSafe :
        (id : NpmPackageCacheFolderId sv.Version)
        → IsPrinted sv id.nv.1
        → IsUrlSafe (version_part id)
    version_part-IsUrlSafe id printed = elim (Bool-cases (nat_beq id.copy_index 0)) [
      | inl zero_index ↦ rw zero_index printed.url_safe
      | inr copy ↦ rw copy (
          All-append (λ d. is_url_safe d ≡ true) (to_string id.nv.1)
            (b'_' ∷ print_usize id.copy_index) printed.url_safe
            (
              refl,
              All-map (print_usize id.copy_index) (λ c h. ground (arith, h))
                  (print_usize-Digits id.copy_index),
            ))
    ]

    -- The folder of a name stands in a URL as it is.
    name_folder-unchanged :
        (name : Text)
        → IsPackageName name
        → IsUrlSafe name
        → map urls.percent_encode (package_name_folder sv base32 name)
          ≡ package_name_folder sv base32 name
    name_folder-unchanged name named safe = elim (Bool-cases (to_lowercase name == name)) [
      | inr mixed ↦ rw (mixed_folder name mixed) (
          ap (λ (t : Text). t ∷ [])
            (url_laws.safe (b'_' ∷ mixed_case_package_name_encode base32 name)
              (refl, mixed_case-IsUrlSafe base32 laws name)
              (ground arith, mixed_case-no_slash base32 laws name)))
      | inl lower ↦ rw (lower_folder name lower) (by_parts name named safe)
    ]
      where
        by_parts :
            (name : Text)
            → IsPackageName name
            → IsUrlSafe name
            → map urls.percent_encode (split b'/' name) ≡ split b'/' name
        by_parts name (plain c s other w) safe =
            rw (split-Without b'/' (c ∷ s) w)
              (ap (λ (t : Text). t ∷ []) (url_laws.safe (c ∷ s) safe w))
        by_parts name (scoped scope n ws wn) (at_sign, safe) =
            let (safe_scope, safe_name) = All-parts scope n safe in
            rw (split-append b'/' (b'@' ∷ scope) n (ground arith, ws)) (
              rw (split-Without b'/' n wn) (
                rw (url_laws.safe (b'@' ∷ scope) (at_sign, safe_scope) (ground arith, ws))
                  (rw (url_laws.safe n safe_name wn) refl)))

    -- The id of a package's folder is found from the URL of the folder or of any file in it: scoped
    -- names, names with capitals and copies included. The name and the version are of characters
    -- that need no encoding in a URL; the path of the file may have others.
    pub folder_id_read_back :
        (id : NpmPackageCacheFolderId sv.Version) (file : List Text)
        → IsPackageName id.nv.0
        → StartsWell id.nv.0
        → IsUrlSafe id.nv.0
        → IsPrinted sv id.nv.1
        → id.copy_index < 2 ^ 64
        → All (Without b'/') file
        → maybe_resolve_package_folder_id_from_specifier sv base32
            (some (relative_url urls (package_folder_for_id sv base32 id ++ file)))
          ≡ some id
    unfolding relative_url
    folder_id_read_back id file named well safe printed fits wf =
        let folder : map urls.percent_encode (package_folder_for_id sv base32 id)
            ≡ package_folder_for_id sv base32 id =
          rw (folder_segments id) (
            map-append urls.percent_encode (package_name_folder sv base32 id.nv.0)
              (version_part id ∷ [])
            ∙ rw (name_folder-unchanged id.nv.0 named safe) (
                rw
                  (url_laws.safe (version_part id) (version_part-IsUrlSafe id printed)
                    (version_part-no_slash id printed))
                  refl)) in
        let segments : map urls.percent_encode (package_folder_for_id sv base32 id ++ file)
            ≡ package_folder_for_id sv base32 id ++ map urls.percent_encode file =
          map-append urls.percent_encode (package_folder_for_id sv base32 id) file
          ∙ ap (λ (l : List Text). l ++ map urls.percent_encode file) folder in
        rw segments (
          segments_read_back id (map urls.percent_encode file) named well safe printed fits
            (no_slashes file wf))
      where
        no_slashes :
            (l : List Text) → All (Without b'/') l → All (Without b'/') (map urls.percent_encode l)
        no_slashes [] h = tt
        no_slashes (t ∷ l) (w, h) = (url_laws.no_slash t w, no_slashes l h)
