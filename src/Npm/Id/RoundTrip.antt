-- ===== src/Npm/Id/RoundTrip.antt =====
-- Serializing and reading an id (crates/module_fetcher/src/npm/resolution/mod.rs).
use server_based_deno.Base.{
  ℕ, zero, suc, ◌+◌, ◌≤◌, ◌<◌, ◌≡◌, refl, [], ◌∷◌, ◌++◌, Text, ok, nat_beq, length, length-append,
  replicate, replace, arith, append_assoc, append-nil, if◌then◌else◌,
}
use native.Mathlib.Numerals.{add-one}
use server_based_deno.Npm.{Semver}
use server_based_deno.Npm.Id.{
  NpmPackageId, npm_package_id, Peers, no_peers, peer, done, Monch, underscore, count_underscores,
  name_end, as_serialized, as_serialized_with_level, serialized_peers, parse_name, parse_version,
  parse_name_and_version, parse_id_at_level, parse_peers_at_level, from_serialized,
}
use server_based_deno.Npm.Id.Format.{
  AreWritable, Follows, Follows-replicate, Follows-mono, IsName, IsWritable, MonchLaws, PrintsBack,
  StopsAt-of_Follows, Without-replace, count-written, level_ends, level_read, need, need_peers,
  not_underscores, read_name, to_at-append, written, written-suc,
}

module _ (sv : Semver) (back : PrintsBack sv) (monch : Monch) (laws : MonchLaws monch) where
  open sv use {Version, to_string, parse_from_npm}
  open back use {first, others, prints, plain, reads}
  open laws use {ch_hit, skip_while_stop, substring_done, if_not_empty_done, failure_handling_done}

  parse_name-written :
      (level : ℕ) (name rest : Text)
      → IsName level name
      → parse_name sv monch (written level name ++ b'@' ∷ rest)
        ≡ done (b'@' ∷ rest) (written level name)
  unfolding parse_name
  parse_name-written zero [] rest h = absurd h
  parse_name-written (suc level) [] rest h = absurd h
  parse_name-written zero (c ∷ s) rest h =
      if_not_empty_done _ _ _ s c
        (substring_done _ name_end (c ∷ s) (b'@' ∷ rest) tt (to_at-append s rest h))
  parse_name-written (suc level) (c ∷ s) rest h = rw (written-suc level (c ∷ s)) (
      unfold replace in
      if_not_empty_done _ _ _ (replace b'/' b'+' s) (if nat_beq c b'/' then b'+' else c) (
        substring_done _ name_end (replace b'/' b'+' (c ∷ s)) (b'@' ∷ rest) tt
          (to_at-append (replace b'/' b'+' s) rest (Without-replace s h.0))))

  parse_version-printed :
      (v : Version) (level : ℕ) (rest : Text)
      → Follows level rest
      → parse_version sv monch (to_string v ++ rest) ≡ done rest (to_string v)
  unfolding parse_version
  parse_version-printed v level rest h = rw prints (
      if_not_empty_done _ _ _ (others v) (first v) (
        substring_done _ _ (first v ∷ others v) rest tt (
          skip_while_stop _ (first v ∷ others v) rest
            (not_underscores (first v ∷ others v) (plain v)) (StopsAt-of_Follows level rest h))))

  parse_nv-written :
      (level l : ℕ) (name rest : Text) (v : Version)
      → IsName level name
      → Follows l rest
      → parse_name_and_version sv monch (written level name ++ b'@' ∷ (to_string v ++ rest))
        ≡ done rest (written level name, v)
  unfolding parse_name_and_version
  parse_nv-written level l name rest v h k = ground (
    arith,
    parse_name-written level name (to_string v ++ rest) h,
    ch_hit b'@' (to_string v ++ rest),
    parse_version-printed v l rest k,
    reads v,
  )

  serialized_id :
      (level : ℕ) (name rest : Text) (v : Version) (ps : Peers Version)
      → as_serialized_with_level sv level (npm_package_id name v ps) ++ rest
        ≡ written level name ++ b'@' ∷ (to_string v ++ (serialized_peers sv level ps ++ rest))
  unfolding as_serialized_with_level
  serialized_id level name rest v ps = simp append_assoc

  serialized_peer :
      (level : ℕ) (rest : Text) (p : NpmPackageId Version) (ps : Peers Version)
      → serialized_peers sv level (peer p ps) ++ rest
        ≡ replicate (suc level) underscore
          ++ (as_serialized_with_level sv (suc level) p ++ (serialized_peers sv level ps ++ rest))
  unfolding as_serialized_with_level
  serialized_peer level rest p ps = rw add-one (rw append_assoc (rw append_assoc refl))

  serialized_none : (level : ℕ) (rest : Text) → serialized_peers sv level no_peers ++ rest ≡ rest
  unfolding as_serialized_with_level
  serialized_none level rest = refl

  count-serialized :
      (level : ℕ) (p : NpmPackageId Version) (rest : Text)
      → IsWritable (suc level) p
      → count_underscores (as_serialized_with_level sv (suc level) p ++ rest) ≡ 0
  unfolding IsWritable
  count-serialized level (npm_package_id name v ps) rest w = rw serialized_id (
      count-written level name
        (b'@' ∷ (to_string v ++ (serialized_peers sv (suc level) ps ++ rest))) w.0)

  -- A list of peers starts with its underscores, or is nothing.
  Follows-peers :
      (level : ℕ) (ps : Peers Version) (rest : Text)
      → AreWritable level ps
      → Follows level rest
      → Follows (suc level) (serialized_peers sv level ps ++ rest)
  Follows-peers level no_peers rest w h =
      unfold as_serialized_with_level in Follows-mono level (suc level) rest (omega arith) h
  Follows-peers level (peer p ps) rest w h = rw serialized_peer (
      Follows-replicate level _
        (count-serialized level p (serialized_peers sv level ps ++ rest) (head_writable w)))
    where
      head_writable : AreWritable level (peer p ps) → IsWritable (suc level) p
      head_writable w = unfold IsWritable in (rw add-one at w.0)

  mutual
    unfolding parse_id_at_level IsWritable need

    reads_id :
        (p : NpmPackageId Version) (level f : ℕ) (rest : Text)
        → IsWritable level p
        → need p ≤ f
        → Follows level rest
        → parse_id_at_level sv monch f level (as_serialized_with_level sv level p ++ rest)
          ≡ done rest p
    reads_id (npm_package_id name v ps) level zero rest w n h = absurd (omega arith)
    reads_id (npm_package_id name v ps) level (suc f) rest w n h =
        let nv =
          parse_nv-written level (suc level) name (serialized_peers sv level ps ++ rest) v w.0
            (Follows-peers level ps rest w.1 h) in
        let ih = reads_peers ps level f rest w.1 (omega arith) h in
        rw serialized_id (rw nv (rw add-one (rw ih (rw (read_name level name w.0)))))

    reads_peers :
        (ps : Peers Version) (level f : ℕ) (rest : Text)
        → AreWritable level ps
        → need_peers ps ≤ f
        → Follows level rest
        → parse_peers_at_level sv monch f (suc level) (serialized_peers sv level ps ++ rest)
          ≡ done rest ps
    reads_peers no_peers level zero rest w n h = absurd (omega arith)
    reads_peers no_peers level (suc f) rest w n h =
        rw serialized_none (rw (level_ends level rest h, parse_peers_at_level) refl)
    reads_peers (peer p ps) level zero rest w n h = absurd (omega arith)
    reads_peers (peer p ps) level (suc f) rest w n h =
        let w' = rw add-one at w.0 in
        let tail = serialized_peers sv level ps ++ rest in
        let start =
          level_read (suc level) (as_serialized_with_level sv (suc level) p ++ tail)
            (count-serialized level p tail w') in
        let here =
          reads_id p (suc level) f tail w' (omega arith) (Follows-peers level ps rest w.1 h) in
        let later = reads_peers ps level f rest w.1 (omega arith) h in
        rw serialized_peer (rw (start, parse_peers_at_level) (rw here (rw later refl)))

  length-replicate : (n : ℕ) → length (replicate n underscore) ≡ n
  length-replicate zero = refl
  length-replicate (suc n) = omega (arith, length-replicate n)

  length-id :
      (level : ℕ) (name : Text) (v : Version) (ps : Peers Version)
      → length (serialized_peers sv level ps)
        < length (as_serialized_with_level sv level (npm_package_id name v ps))
  length-id level name v ps =
      let whole : as_serialized_with_level sv level (npm_package_id name v ps)
          ≡ written level name ++ b'@' ∷ (to_string v ++ serialized_peers sv level ps) =
        (unfold as_serialized_with_level in refl) in
      rw whole (
        omega (
          arith,
          length-append (written level name) (b'@' ∷ (to_string v ++ serialized_peers sv level ps)),
          length-append (to_string v) (serialized_peers sv level ps),
        ))

  length-peer :
      (level : ℕ) (p : NpmPackageId Version) (ps : Peers Version)
      → length (serialized_peers sv level (peer p ps))
        ≡ suc (
            level
            + (length (as_serialized_with_level sv (suc level) p)
                + length (serialized_peers sv level ps)))
  length-peer level p ps =
      let whole : serialized_peers sv level (peer p ps)
          ≡ replicate (suc level) underscore
            ++ (as_serialized_with_level sv (suc level) p ++ serialized_peers sv level ps) =
        (unfold as_serialized_with_level in rw add-one refl) in
      rw whole (
        omega (
          arith,
          length-append (replicate (suc level) underscore)
              (as_serialized_with_level sv (suc level) p ++ serialized_peers sv level ps),
          length-append (as_serialized_with_level sv (suc level) p) (serialized_peers sv level ps),
          length-replicate (suc level),
        ))

  -- The fuel of `from_serialized` covers every text that an id prints to.
  mutual
    unfolding need

    need-le :
        (p : NpmPackageId Version) (level : ℕ)
        → need p
          ≤ length (as_serialized_with_level sv level p)
            + length (as_serialized_with_level sv level p)
    need-le (npm_package_id name v ps) level =
        omega (arith, need_peers-le ps level, length-id level name v ps)

    need_peers-le :
        (ps : Peers Version) (level : ℕ)
        → need_peers ps
          ≤ suc (length (serialized_peers sv level ps) + length (serialized_peers sv level ps))
    need_peers-le no_peers level = omega arith
    need_peers-le (peer p ps) level =
        omega (arith, need-le p (suc level), need_peers-le ps level, length-peer level p ps)

  -- An id whose names the format can hold is read back from its text, whatever the depth of its
  -- peers: for a version library that reads its own output and the documented combinators.
  pub from_serialized-as_serialized :
      (p : NpmPackageId Version)
      → IsWritable 0 p
      → from_serialized sv monch (as_serialized sv p) ≡ ok p
  unfolding from_serialized as_serialized
  from_serialized-as_serialized p w =
      let text = as_serialized_with_level sv 0 p in
      let read : parse_id_at_level sv monch (length text + length text + 2) 0 (text ++ [])
          ≡ done [] p =
        reads_id p 0 (length text + length text + 2) [] w (omega (arith, need-le p 0)) tt in
      failure_handling_done _ _ _ p (rw append-nil at read)
