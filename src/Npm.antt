-- ===== src/Npm.antt =====
-- npm packages: crates/module_fetcher/src/npm. Versions and version requirements belong to the
-- crate deno_graph and are the parameter `Semver`.
pub mod Best
pub mod Versions
pub mod Id
pub mod CopyIndex
pub mod Snapshot
pub mod Dependencies
pub mod MixedCase
pub mod Cache
pub mod Tarball
pub mod Download
pub mod Graph
pub mod Resolution
mod Examples
use server_based_deno.Base.{
  ℕ, ◌≡◌, Bool, true, false, Option, none, some, List, [], ◌∷◌, ◌++◌, Text, codes, Map,
}

-- registry.rs

pub record NpmPackageVersionDistInfo : Type 0 where
  pub tarball : Text
  pub shasum : Text
  pub integrity_field : Option Text

pub record NpmPackageVersionInfo : Type 0 where
  pub version : Text
  pub dist : NpmPackageVersionDistInfo
  pub dependencies : Map Text Text
  pub peer_dependencies : Map Text Text
  pub peer_dependencies_meta : Map Text Bool

pub record NpmPackageInfo : Type 0 where
  pub name : Text
  pub versions : Map Text NpmPackageVersionInfo
  pub dist_tags : Map Text Text

abbrev or_sha1 : Option Text → Text → Text
or_sha1 (some integrity) shasum = integrity
or_sha1 none shasum = codes "sha1-" ++ shasum

unfoldable pub integrity : NpmPackageVersionDistInfo → Text
integrity dist = or_sha1 dist.integrity_field dist.shasum

-- deno_graph::semver

pub record Semver : Type 1 where
  pub Version : Type 0
  pub Req : Type 0
  pub to_string : Version → Text
  pub parse_from_npm : Text → Option Version
  pub parse_req_from_npm : Text → Option Req
  pub parse_req_from_specifier : Text → Option Req
  pub version_text : Req → Text
  pub matches : Req → Version → Bool
  pub tag : Req → Option Text
  pub lt : Version → Version → Bool
  pub same : Version → Version → Bool

-- The order of versions is strict: no version is below itself, and it is transitive.
pub record IsStrict {V : Type 0} (lt : V → V → Bool) : Type 0 where
  pub irrefl : (v : V) → lt v v ≡ false
  pub trans : (u v w : V) → lt u v ≡ true → lt v w ≡ true → lt u w ≡ true
