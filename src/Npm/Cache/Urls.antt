-- ===== src/Npm/Cache/Urls.antt =====
-- The URLs of packages' files (crates/module_fetcher/src/npm/cache.rs).
use server_based_deno.Base.{
  ℕ, ◌≡◌, ◌≢◌, refl, sym, ap, ◌∙◌, true, false, none, some, List, [], ◌∷◌, ◌++◌, Text, codes,
  text_keyed, All, Without, starts_with, strip_prefix, split, join, split_once, split-Without,
  split-append, split-join, map, append_assoc, arith,
}
use server_based_deno.Npm.{Semver}
use server_based_deno.Npm.Snapshot.Names.{IsPackageName, plain, scoped}
use server_based_deno.Npm.MixedCase.{Base32}
use server_based_deno.Npm.MixedCase.Laws.{IsUrlSafe}
use server_based_deno.Npm.Cache.{UrlPaths, read_version, read_parts}

-- What the crate url documents: characters that may stand in a path are left alone, and no slash is
-- made.
pub record UrlLaws (urls : UrlPaths) : Type 0 where
  pub safe :
      (segment : Text)
      → IsUrlSafe segment
      → Without b'/' segment
      → urls.percent_encode segment ≡ segment
  pub no_slash :
      (segment : Text) → Without b'/' segment → Without b'/' (urls.percent_encode segment)

-- A version that is read back, whose text can stand in a URL and has no underscore and no slash.
pub record IsPrinted (sv : Semver) (v : sv.Version) : Type 0 where
  pub reads : sv.parse_from_npm (sv.to_string v) ≡ some v
  pub url_safe : IsUrlSafe (sv.to_string v)
  pub no_underscore : Without b'_' (sv.to_string v)
  pub no_slash : Without b'/' (sv.to_string v)

-- A package's name does not start with a dot or an underscore.
abbrev pub StartsWell : Text → Type 0
StartsWell [] = ⊥
StartsWell (c ∷ s) = (c ≢ b'.') × (c ≢ b'_')

pub All-parts : (s t : Text) → IsUrlSafe (s ++ b'/' ∷ t) → IsUrlSafe s × IsUrlSafe t
All-parts [] t h = (tt, h.1)
All-parts (c ∷ s) t h = let (hs, ht) = All-parts s t h.1 in ((h.0, hs), ht)

pub map-append : (f : Text → Text) (xs ys : List Text) → map f (xs ++ ys) ≡ map f xs ++ map f ys
map-append f [] ys = refl
map-append f (x ∷ xs) ys = ap (λ (l : List Text). f x ∷ l) (map-append f xs ys)

module _ (vpart : Text) (file : List Text) (wv : Without b'/' vpart)
    (wf : All (Without b'/') file) where
  -- The relative URL of a file of a package.
  abbrev pub url : Text → Text
  url name = join b'/' (split b'/' name ++ vpart ∷ file)

  plain_url :
      (c : ℕ) (s : Text) → Without b'/' (c ∷ s) → url (c ∷ s) ≡ join b'/' ((c ∷ s) ∷ vpart ∷ file)
  plain_url c s w = rw (split-Without b'/' (c ∷ s) w) refl

  scoped_url :
      (scope name : Text)
      → Without b'/' scope
      → Without b'/' name
      → url (b'@' ∷ (scope ++ b'/' ∷ name)) ≡ join b'/' ((b'@' ∷ scope) ∷ name ∷ vpart ∷ file)
  scoped_url scope name ws wn =
      rw (split-append b'/' (b'@' ∷ scope) name (ground arith, ws))
        (rw (split-Without b'/' name wn) refl)

  -- Whole names in place of their segments.
  pub url_of_name : (name : Text) → IsPackageName name → url name ≡ join b'/' (name ∷ vpart ∷ file)
  unfolding join
  url_of_name name (plain c s other w) = plain_url c s w
  url_of_name name (scoped scope n ws wn) =
      scoped_url scope n ws wn ∙ ap (λ t. b'@' ∷ t) (sym (append_assoc scope (b'/' ∷ n) _))

  module _ (sv : Semver) (base32 : Base32) where
    no_scope : (c : ℕ) (t : Text) → c ≢ b'@' → starts_with (b'@' ∷ []) (c ∷ t) ≡ false
    unfolding starts_with
    no_scope c t other = ground arith

    has_scope : (t : Text) → starts_with (b'@' ∷ []) (b'@' ∷ t) ≡ true
    unfolding starts_with
    has_scope t = refl

    pub read_parts-url :
        (name : Text)
        → IsPackageName name
        → read_parts sv base32 (url name)
          ≡ read_version sv base32 name vpart (split_once b'_' vpart)
    unfolding read_parts join
    read_parts-url name (plain c s other w) =
        rw (plain_url c s w)
          (rw (split-join b'/' (c ∷ s) (vpart ∷ file) w (wv, wf)) (rw (no_scope c _ other) refl))
    read_parts-url name (scoped scope n ws wn) = rw (scoped_url scope n ws wn) (
        rw (split-join b'/' (b'@' ∷ scope) (n ∷ vpart ∷ file) (ground arith, ws) (wn, (wv, wf)))
          (rw (has_scope _) refl))

    -- The URL does not start like that of an encoded name, or outside the folder.
    pub url_head :
        (name : Text)
        → IsPackageName name
        → StartsWell name
        → (starts_with (codes "../") (url name) ≡ false)
          × (strip_prefix (codes "_") (url name) ≡ none)
    unfolding starts_with strip_prefix join
    url_head name (plain c s other w) (no_dot, no_underscore) =
        rw (plain_url c s w) (ground arith, ground arith)
    url_head name (scoped scope n ws wn) h = rw (scoped_url scope n ws wn) (refl, refl)
