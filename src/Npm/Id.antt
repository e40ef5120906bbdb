-- ===== src/Npm/Id.antt =====
-- Package ids and their text in the lockfile: `NpmPackageId` of
-- crates/module_fetcher/src/npm/resolution/mod.rs. The parser combinators are those of the crate
-- monch, the parameter `Monch`.
pub mod Equality
pub mod Format
pub mod RoundTrip
pub mod Examples
use server_based_deno.Base.{
  ℕ, zero, suc, ◌+◌, ◌≤◌, ◌<◌, ◌≡◌, Bool, true, false, not, Option, none, some, List, [], ◌∷◌, ◌++◌,
  Text, codes, All, Result, ok, err, nat_beq, ltb, drop, replicate, replace, length, if◌then◌else◌,
}
use server_based_deno.Npm.{Semver}

mutual
  pub data NpmPackageId (V : Type 0) : Type 0 where
    npm_package_id : Text → V → Peers V → NpmPackageId V

  pub data Peers (V : Type 0) : Type 0 where
    no_peers : Peers V
    peer : NpmPackageId V → Peers V → Peers V

-- What a parser of monch returns: the rest of the input and a value, or one of its two errors.
-- `out_of_fuel` has no counterpart there.
pub data Parse (A : Type 0) : Type 0 where
  done : Text → A → Parse A
  backtrace : Parse A
  failure : Text → Parse A
  out_of_fuel : Parse A

abbrev pub then_parse : {A B : Type 0} → Parse A → (Text → A → Parse B) → Parse B
then_parse (done rest a) k = k rest a
then_parse backtrace k = backtrace
then_parse (failure e) k = failure e
then_parse out_of_fuel k = out_of_fuel

pub record Monch : Type 1 where
  pub ch : ℕ → Text → Parse ℕ
  pub skip_while : (ℕ → Bool) → Text → Parse (Unit {0})
  pub substring : (A : Type 0) → (Text → Parse A) → Text → Parse Text
  pub if_not_empty : (Text → Parse Text) → Text → Parse Text
  pub with_failure_handling : (A : Type 0) → (Text → Parse A) → Text → Result Text A

abbrev pub underscore : ℕ
underscore = b'_'

-- `input.chars().take_while(|c| *c == '_').count()`
abbrev pub count_underscores : Text → ℕ
count_underscores [] = 0
count_underscores (c ∷ s) = if nat_beq c underscore then suc (count_underscores s) else 0

unfoldable pub parse_level_at_level : ℕ → Text → Parse (Unit {0})
parse_level_at_level level input =
    let parsed_level = count_underscores input in
    if nat_beq parsed_level level then done (drop parsed_level input) tt else backtrace

-- The loop of `parse_name`, after the first character.
abbrev pub to_at : Text → Parse (Unit {0})
to_at [] = backtrace
to_at (c ∷ s) = if nat_beq c b'@' then done (c ∷ s) tt else to_at s

abbrev pub name_end : Text → Parse (Unit {0})
name_end [] = backtrace
name_end (c ∷ s) = to_at s

module _ (sv : Semver) where
  open sv use {Version, to_string, parse_from_npm}

  unfoldable mutual
    pub as_serialized_with_level : ℕ → NpmPackageId Version → Text
    as_serialized_with_level level (npm_package_id name version peers) =
        (if nat_beq level 0 then name else replace b'/' b'+' name)
        ++ b'@' ∷ (to_string version ++ serialized_peers level peers)

    pub serialized_peers : ℕ → Peers Version → Text
    serialized_peers level no_peers = []
    serialized_peers level (peer p ps) =
        replicate (level + 1) underscore
        ++ (as_serialized_with_level (level + 1) p ++ serialized_peers level ps)

  unfoldable pub as_serialized : NpmPackageId Version → Text
  unfolding as_serialized_with_level
  as_serialized = as_serialized_with_level 0

  module _ (monch : Monch) where
    open monch use {ch, skip_while, substring, if_not_empty, with_failure_handling}

    unfoldable pub parse_name : Text → Parse Text
    parse_name = if_not_empty (substring (Unit {0}) name_end)

    unfoldable pub parse_version : Text → Parse Text
    parse_version =
        if_not_empty (substring (Unit {0}) (skip_while (λ c. not (nat_beq c underscore))))

    abbrev pub checked : Text → Text → Option Version → Parse (Text × Version)
    checked rest name none = failure (codes "Invalid npm version")
    checked rest name (some version) = done rest (name, version)

    unfoldable pub parse_name_and_version : Text → Parse (Text × Version)
    parse_name_and_version input = then_parse (parse_name input) λ input name.
        then_parse (ch b'@' input) λ input _.
          then_parse (parse_version input)
            λ input version. checked input name (parse_from_npm version)

    unfoldable mutual
      pub parse_id_at_level : ℕ → ℕ → Text → Parse (NpmPackageId Version)
      parse_id_at_level zero level input = out_of_fuel
      parse_id_at_level (suc fuel) level input =
          then_parse (parse_name_and_version input) λ input nv.
            let name = (if ltb 0 level then replace b'+' b'/' nv.0 else nv.0) in
            then_parse (parse_peers_at_level fuel (level + 1) input)
              λ input peers. done input (npm_package_id name nv.1 peers)

      pub parse_peers_at_level : ℕ → ℕ → Text → Parse (Peers Version)
      parse_peers_at_level zero level input = out_of_fuel
      parse_peers_at_level (suc fuel) level input = elim (parse_level_at_level level input) [
        | done level_input _ ↦ then_parse (parse_id_at_level fuel level level_input) λ input p.
            then_parse (parse_peers_at_level fuel level input) λ input ps. done input (peer p ps)
        | backtrace ↦ done input no_peers
        | failure e ↦ done input no_peers
        | out_of_fuel ↦ done input no_peers
      ]

    -- Every round of the two parsers reads a character or ends a list, so the fuel is of the order
    -- of the text.
    unfoldable pub from_serialized : Text → Result Text (NpmPackageId Version)
    unfolding parse_id_at_level
    from_serialized id =
        with_failure_handling (NpmPackageId Version)
          (parse_id_at_level (length id + length id + 2) 0) id
