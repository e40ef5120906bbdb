-- ===== src/Npm/Dependencies/Examples.antt =====
-- Dependencies of an application and of a published version.
use server_based_deno.Base.{
  ◌≡◌, refl, true, none, some, [], ◌∷◌, codes, get, insert, text_keyed, text_beq, starts_with,
  strip_prefix, rsplit_once, split, ok, err,
}
use server_based_deno.Npm.{NpmPackageVersionInfo}
use server_based_deno.Npm.Id.Examples.{two_versions}
use server_based_deno.Npm.Snapshot.Lockfile.{dummy_dist}
use server_based_deno.Npm.Dependencies.{
  DepError, PackageJson, dep, optional_peer, Entries, get_local_package_json_version_reqs,
  insert_deps, insert_each, parse_entry, parse_dep_entry, parse_dep_entry_name_and_raw_version,
  dependencies_as_entries, peer_entries, dep_entries,
}
use server_based_deno.Npm.Dependencies.Local.{read_value, or_else, lookup, local_reqs-get}
use server_based_deno.Npm.Dependencies.Described.{Describes}
use server_based_deno.Npm.Dependencies.Entries.{dependencies_as_entries-get}

abbrev app : PackageJson
app = record {
  dependencies = some ((codes "other", codes "npm:package@1") ∷ []);
  dev_dependencies = some ((codes "other", codes "3") ∷ (codes "b", codes "file:b") ∷ []);
}

local_reqs-get_example :
    get (codes "other") (get_local_package_json_version_reqs two_versions app)
    ≡ read_value two_versions (codes "other") (
        or_else
          (lookup (codes "other") app.dependencies)
          (lookup (codes "other") app.dev_dependencies))
unfolding get text_beq
local_reqs-get_example =
    local_reqs-get two_versions (codes "other") app (refl, tt) (refl, (refl, tt))

alias_is_read :
    get (codes "other") (get_local_package_json_version_reqs two_versions app)
    ≡ some (ok (record { name = codes "package"; version_req = some tt }))
unfolding get_local_package_json_version_reqs insert_deps insert_each insert get text_beq
    starts_with strip_prefix rsplit_once parse_entry
alias_is_read = refl

file_is_unsupported :
    get (codes "b") (get_local_package_json_version_reqs two_versions app)
    ≡ some (err (DepError.unsupported (codes "file")))
unfolding get_local_package_json_version_reqs insert_deps insert_each insert get text_beq
    starts_with split parse_entry
file_is_unsupported = refl

abbrev published : NpmPackageVersionInfo
published = record {
  version = codes "1";
  dist = dummy_dist;
  dependencies = (codes "a", codes "1") ∷ (codes "p", codes "npm:q@0") ∷ [];
  peer_dependencies = (codes "p", codes "1") ∷ [];
  peer_dependencies_meta = (codes "p", true) ∷ [];
}

abbrev entries : Entries two_versions
entries =
    (
      codes "p",
      record {
        kind = optional_peer;
        bare_specifier = codes "p";
        name = codes "p";
        version_req = tt;
        peer_dep_version_req = some tt;
      },
    )
    ∷ (
      codes "a",
      record {
        kind = dep;
        bare_specifier = codes "a";
        name = codes "a";
        version_req = tt;
        peer_dep_version_req = none;
      },
    )
    ∷ []

entries_read : dependencies_as_entries two_versions published ≡ ok entries
unfolding dependencies_as_entries get text_beq strip_prefix rsplit_once parse_dep_entry
    parse_dep_entry_name_and_raw_version peer_entries dep_entries insert
entries_read = refl

dependencies_as_entries-get_example :
    Describes two_versions
      (codes "p")
      (some true)
      (some (codes "npm:q@0"))
      (some (codes "1"))
      (get (codes "p") entries)
unfolding get text_beq
dependencies_as_entries-get_example =
    dependencies_as_entries-get two_versions (codes "p") published entries (refl, tt)
      (refl, (refl, tt)) entries_read
