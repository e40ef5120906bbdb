-- ===== src/Npm/Dependencies/Local.antt =====
-- The requirements of the application's package.json
-- (crates/module_fetcher/src/args/package_json.rs).
use server_based_deno.Base.{
  ◌≡◌, refl, sym, ap, ◌∙◌, Option, none, some, [], ◌∷◌, Text, Map, get, insert, get-insert,
  text_keyed, Result, Bool-cases, inl, inr, ◌==◌,
}
use server_based_deno.Npm.{Semver}
use server_based_deno.Npm.Snapshot.{NpmPackageReq}
use server_based_deno.Npm.Dependencies.{
  DepError, PackageJson, parse_entry, PackageJsonDeps, insert_each, insert_deps,
  get_local_package_json_version_reqs,
}

-- No key stands in the list twice, as in the map that it is.
abbrev pub IsMap : {V : Type 0} → Map Text V → Type 0
IsMap [] = Unit
IsMap ((key, value) ∷ rest) = (get key rest ≡ none) × IsMap rest

abbrev pub MaybeIsMap : {V : Type 0} → Option (Map Text V) → Type 0
MaybeIsMap none = Unit
MaybeIsMap (some m) = IsMap m

-- The first of two values that is there.
abbrev pub or_else : {A : Type 0} → Option A → Option A → Option A
or_else none o = o
or_else (some a) o = some a

abbrev pub lookup : {V : Type 0} → Text → Option (Map Text V) → Option V
lookup k none = none
lookup k (some m) = get k m

module _ (sv : Semver) where
  abbrev pub read_value : Text → Option Text → Option (Result DepError (NpmPackageReq sv.Req))
  read_value key none = none
  read_value key (some value) = some (parse_entry sv key value)

  read_value-or_else :
      (k : Text) (o p : Option Text)
      → or_else (read_value k o) (or_else (read_value k p) none) ≡ read_value k (or_else o p)
  read_value-or_else k (some v) p = refl
  read_value-or_else k none none = refl
  read_value-or_else k none (some w) = refl

  get-insert_each :
      (k : Text) (m : Map Text Text) (r : PackageJsonDeps sv)
      → IsMap m
      → get k (insert_each sv m r) ≡ or_else (read_value k (get k m)) (get k r)
  unfolding insert_each get
  get-insert_each k [] r h = refl
  get-insert_each k ((j, v) ∷ rest) r (fresh, h) =
      let ih = get-insert_each k rest (insert j (parse_entry sv j v) r) h in
      elim (Bool-cases (j == k)) [
        | inl same ↦
            let e = (text_keyed.same_iff j k).0 same in
            let gone : get k rest ≡ none = rw (sym e) fresh in
            let here : get k (insert j (parse_entry sv j v) r) ≡ some (parse_entry sv k v) =
              rw get-insert (rw same (rw e refl)) in
            rw same (rw ih (rw gone here))
        | inr other ↦
            let there : get k (insert j (parse_entry sv j v) r) ≡ get k r =
              rw get-insert (rw other refl) in
            rw other (rw ih (rw there refl))
      ]

  get-insert_deps :
      (k : Text) (deps : Option (Map Text Text)) (r : PackageJsonDeps sv)
      → MaybeIsMap deps
      → get k (insert_deps sv deps r) ≡ or_else (read_value k (lookup k deps)) (get k r)
  unfolding insert_deps
  get-insert_deps k none r h = refl
  get-insert_deps k (some m) r h = get-insert_each k m r h

  -- A dependency of the application is read from `dependencies`, and from `devDependencies` only if
  -- `dependencies` does not have it, even where its entry there is an error; no other key is in the
  -- result.
  pub local_reqs-get :
      (k : Text) (package_json : PackageJson)
      → MaybeIsMap package_json.dependencies
      → MaybeIsMap package_json.dev_dependencies
      → get k (get_local_package_json_version_reqs sv package_json)
        ≡ read_value k
            (or_else (lookup k package_json.dependencies) (lookup k package_json.dev_dependencies))
  unfolding get_local_package_json_version_reqs get
  local_reqs-get k package_json hd hv =
      get-insert_deps k package_json.dependencies (insert_deps sv package_json.dev_dependencies [])
        hd
      ∙ ap (or_else (read_value k (lookup k package_json.dependencies)))
          (get-insert_deps k package_json.dev_dependencies [] hv)
      ∙ read_value-or_else k (lookup k package_json.dependencies)
          (lookup k package_json.dev_dependencies)
