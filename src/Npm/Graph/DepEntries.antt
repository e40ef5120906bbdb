-- ===== src/Npm/Graph/DepEntries.antt =====
-- The dependencies of a version in the order in which they are resolved: `DepEntryCache::store` of
-- crates/module_fetcher/src/npm/resolution/graph.rs and the order of `NpmDependencyEntry` in
-- crates/module_fetcher/src/npm/registry.rs.
use server_based_deno.Base.{
  Bool, ◌&&◌, ◌||◌, List, map, sort_by, text_ltb, text_keyed, ◌==◌, Result, ok, ◌>>=◌,
}
use server_based_deno.Npm.{Semver, NpmPackageVersionInfo}
use server_based_deno.Npm.Dependencies.{DepError, NpmDependencyEntry, dependencies_as_entries}

module _ (sv : Semver) where
  open sv use {Req, version_text}

  -- By name, then by the text of the requirement, the greatest first.
  unfoldable pub entry_ltb : NpmDependencyEntry sv.Req → NpmDependencyEntry sv.Req → Bool
  entry_ltb a b =
      text_ltb a.name b.name
      || (a.name == b.name && text_ltb (version_text b.version_req) (version_text a.version_req))

  unfoldable pub sorted_entries :
      NpmPackageVersionInfo → Result DepError (List (NpmDependencyEntry sv.Req))
  sorted_entries info =
      dependencies_as_entries sv info >>= λ entries. ok (sort_by entry_ltb (map (λ e. e.1) entries))
