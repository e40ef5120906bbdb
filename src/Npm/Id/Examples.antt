-- ===== src/Npm/Id/Examples.antt =====
-- Parser combinators and versions with the laws that the round trip relies on, and package ids
-- read back with them.
use server_based_deno.Base.{
  ℕ, ◌-◌, ◌≡◌, ◌≢◌, refl, Bool, true, false, Option, none, some, [], ◌∷◌, ◌++◌, Text, codes, Result,
  ok, err, arith, nat_beq, All, replace, take, length, length-append, if◌then◌else◌,
}
use server_based_deno.Npm.{Semver}
use server_based_deno.Npm.Id.{
  NpmPackageId, npm_package_id, no_peers, peer, Parse, done, backtrace, failure, out_of_fuel,
  then_parse, Monch, as_serialized, from_serialized,
}
use server_based_deno.Npm.Id.Format.{StopsAt, MonchLaws, PrintsBack, IsWritable}
use server_based_deno.Npm.Id.RoundTrip.{from_serialized-as_serialized}

-- Two versions: 0 and 1.
abbrev print_version : Bool → Text
print_version true = b'1' ∷ []
print_version false = b'0' ∷ []

abbrev read_version : Text → Option Bool
read_version (c ∷ []) =
    if nat_beq c b'1' then some true else if nat_beq c b'0' then some false else none
read_version _ = none

abbrev pub two_versions : Semver
two_versions = record {
  Version = Bool;
  Req = Unit;
  to_string = print_version;
  parse_from_npm = read_version;
  parse_req_from_npm = λ t. some tt;
  parse_req_from_specifier = λ t. some tt;
  version_text = λ r. [];
  matches = λ r v. true;
  tag = λ r. none;
  lt = λ v w. false;
  same = λ v w. true;
}

abbrev first_of : Bool → ℕ
first_of true = b'1'
first_of false = b'0'

prints_first : (v : Bool) → print_version v ≡ first_of v ∷ []
prints_first true = refl
prints_first false = refl

plain_first : (v : Bool) → All (λ c. c ≢ b'_') (first_of v ∷ [])
plain_first true = (ground arith, tt)
plain_first false = (ground arith, tt)

reads_back : (v : Bool) → read_version (print_version v) ≡ some v
reads_back true = refl
reads_back false = refl

prints_back : PrintsBack two_versions
prints_back = record {
  first = first_of;
  others = λ v. [];
  prints = prints_first;
  plain = plain_first;
  reads = reads_back;
}

abbrev run_ch : ℕ → Text → Parse ℕ
run_ch c [] = backtrace
run_ch c (d ∷ s) = if nat_beq d c then done s d else backtrace

abbrev run_skip_while : (ℕ → Bool) → Text → Parse (Unit {0})
run_skip_while p [] = done [] tt
run_skip_while p (c ∷ s) = let rest = run_skip_while p s in if p c then rest else done (c ∷ s) tt

abbrev run_substring : (A : Type 0) → (Text → Parse A) → Text → Parse Text
run_substring A p s = then_parse (p s) λ rest _. done rest (take (length s - length rest) s)

abbrev unless_empty : Text → Text → Parse Text
unless_empty rest [] = backtrace
unless_empty rest (c ∷ t) = done rest (c ∷ t)

abbrev run_if_not_empty : (Text → Parse Text) → Text → Parse Text
run_if_not_empty p s = then_parse (p s) unless_empty

abbrev to_result : {A : Type 0} → Parse A → Result Text A
to_result (done [] a) = ok a
to_result (done (c ∷ s) a) = err (codes "Unexpected character.")
to_result backtrace = err (codes "Unexpected character.")
to_result (failure e) = err e
to_result out_of_fuel = err []

abbrev pub monch : Monch
monch = record {
  ch = run_ch;
  skip_while = run_skip_while;
  substring = run_substring;
  if_not_empty = run_if_not_empty;
  with_failure_handling = λ A p s. to_result (p s);
}

run_skip_while_stop :
    (p : ℕ → Bool) (u rest : Text)
    → All (λ c. p c ≡ true) u
    → StopsAt p rest
    → run_skip_while p (u ++ rest) ≡ done rest tt
run_skip_while_stop p [] [] h k = refl
run_skip_while_stop p [] (c ∷ s) h k = rw k refl
run_skip_while_stop p (c ∷ u) rest h k = rw (run_skip_while_stop p u rest h.1 k) (rw (h.0) refl)

take-length-append : (u rest : Text) → take (length u) (u ++ rest) ≡ u
take-length-append [] rest = refl
take-length-append (c ∷ u) rest = rw (take-length-append u rest) refl

consumed : (u rest : Text) → take (length (u ++ rest) - length rest) (u ++ rest) ≡ u
consumed u rest =
    let n : length (u ++ rest) - length rest ≡ length u = omega (arith, length-append u rest) in
    rw n (take-length-append u rest)

monch_laws : MonchLaws monch
monch_laws = record {
  ch_hit = λ c s. ground arith;
  skip_while_stop = run_skip_while_stop;
  substring_done = λ A p u rest a h. rw h (rw (consumed u rest) refl);
  if_not_empty_done = λ p s rest t c h. rw h refl;
  failure_handling_done = λ A p s a h. rw h refl;
}

-- A package with two peers, the first of which has one of its own.
abbrev deep : NpmPackageId Bool
deep = npm_package_id (codes "@scope/app") true (
    peer
      (npm_package_id (codes "@types/a_b") false
        (peer (npm_package_id (codes "c") true no_peers) no_peers))
      (peer (npm_package_id (codes "d") false no_peers) no_peers))

deep_text : as_serialized two_versions deep ≡ codes "@scope/app@1_@types+a_b@0__c@1_d@0"
unfolding as_serialized replace
deep_text = refl

deep-IsWritable : IsWritable 0 deep
unfolding IsWritable
deep-IsWritable = ground arith

from_serialized-as_serialized_example :
    from_serialized two_versions monch (as_serialized two_versions deep) ≡ ok deep
from_serialized-as_serialized_example =
    from_serialized-as_serialized two_versions prints_back monch monch_laws deep deep-IsWritable
