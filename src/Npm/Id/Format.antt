-- ===== src/Npm/Id/Format.antt =====
-- What the text of a package id can hold, what the parser combinators and the versions are relied
-- on for, and the pieces of that text.
use server_based_deno.Base.{
  ℕ, zero, suc, ◌+◌, ◌≤◌, ◌≡◌, ◌≢◌, refl, Bool, true, false, not, some, [], ◌∷◌, ◌++◌, Text, All,
  Without, ok, nat_beq, ltb, drop, replicate, replace, arith, if◌then◌else◌,
}
use server_based_deno.Npm.{Semver}
use server_based_deno.Npm.Id.{
  NpmPackageId, npm_package_id, Peers, no_peers, peer, Parse, done, backtrace, Monch, underscore,
  count_underscores, parse_level_at_level, to_at,
}

-- A text is empty, or its first character fails the test.
abbrev pub StopsAt : (ℕ → Bool) → Text → Type 0
StopsAt p [] = Unit
StopsAt p (c ∷ s) = p c ≡ false

-- What monch documents of its combinators, where they succeed.
pub record MonchLaws (monch : Monch) : Type 1 where
  pub ch_hit : (c : ℕ) (s : Text) → monch.ch c (c ∷ s) ≡ done s c
  pub skip_while_stop :
      (p : ℕ → Bool) (u rest : Text)
      → All (λ c. p c ≡ true) u
      → StopsAt p rest
      → monch.skip_while p (u ++ rest) ≡ done rest tt
  pub substring_done :
      (A : Type 0) (p : Text → Parse A) (u rest : Text) (a : A)
      → p (u ++ rest) ≡ done rest a
      → monch.substring A p (u ++ rest) ≡ done rest u
  pub if_not_empty_done :
      (p : Text → Parse Text) (s rest t : Text) (c : ℕ)
      → p s ≡ done rest (c ∷ t)
      → monch.if_not_empty p s ≡ done rest (c ∷ t)
  pub failure_handling_done :
      (A : Type 0) (p : Text → Parse A) (s : Text) (a : A)
      → p s ≡ done [] a
      → monch.with_failure_handling A p s ≡ ok a

-- Versions print to a text that is not empty and has no underscore, and are read back.
pub record PrintsBack (sv : Semver) : Type 0 where
  pub first : sv.Version → ℕ
  pub others : sv.Version → Text
  pub prints : (v : sv.Version) → sv.to_string v ≡ first v ∷ others v
  pub plain : (v : sv.Version) → All (λ c. c ≢ underscore) (first v ∷ others v)
  pub reads : (v : sv.Version) → sv.parse_from_npm (sv.to_string v) ≡ some v

-- A name that the format can hold: no `@` but at the start; below the root no `+`, and no
-- underscore at the start.
abbrev pub IsName : ℕ → Text → Type 0
IsName level [] = ⊥
IsName zero (c ∷ s) = Without b'@' s
IsName (suc level) (c ∷ s) = Without b'@' s × (c ≢ underscore) × Without b'+' (c ∷ s)

abbrev pub written : ℕ → Text → Text
written level name = if nat_beq level 0 then name else replace b'/' b'+' name

-- What may follow an id of a level: nothing, or no more underscores than the level.
abbrev pub Follows : ℕ → Text → Type 0
Follows level [] = Unit
Follows level (c ∷ s) = (c ≡ underscore) × (count_underscores (c ∷ s) ≤ level)

pub written-suc : (level : ℕ) (name : Text) → written (suc level) name ≡ replace b'/' b'+' name
written-suc level name = ground arith

pub to_at-append :
    (s rest : Text) → Without b'@' s → to_at (s ++ b'@' ∷ rest) ≡ done (b'@' ∷ rest) tt
to_at-append [] rest h = ground arith
to_at-append (c ∷ s) rest h = ground (arith, to_at-append s rest)

pub replace-back : (s : Text) → Without b'+' s → replace b'+' b'/' (replace b'/' b'+' s) ≡ s
unfolding replace
replace-back [] h = refl
replace-back (c ∷ s) h = ground (arith, replace-back s)

pub Without-replace : (s : Text) → Without b'@' s → Without b'@' (replace b'/' b'+' s)
unfolding replace
Without-replace [] h = tt
Without-replace (c ∷ s) h = (ground arith, Without-replace s h.1)

pub count-replicate :
    (n : ℕ) (s : Text) → count_underscores (replicate n underscore ++ s) ≡ n + count_underscores s
count-replicate zero s = omega arith
count-replicate (suc n) s = omega (arith, count-replicate n s)

pub drop-replicate : (n : ℕ) (s : Text) → drop n (replicate n underscore ++ s) ≡ s
drop-replicate zero s = refl
drop-replicate (suc n) s = drop-replicate n s

-- The fuel that the text of an id takes.
unfoldable mutual
  pub need : {V : Type 0} → NpmPackageId V → ℕ
  need (npm_package_id name version ps) = suc (need_peers ps)

  pub need_peers : {V : Type 0} → Peers V → ℕ
  need_peers no_peers = 1
  need_peers (peer p ps) = suc (need p + need_peers ps)

-- Every name of the id fits its level.
unfoldable mutual
  pub IsWritable : {V : Type 0} → ℕ → NpmPackageId V → Type 0
  IsWritable level (npm_package_id name version ps) = IsName level name × AreWritable level ps

  pub AreWritable : {V : Type 0} → ℕ → Peers V → Type 0
  AreWritable level no_peers = Unit
  AreWritable level (peer p ps) = IsWritable (level + 1) p × AreWritable level ps

-- The first character of a text written below the root is no underscore.
pub count-written :
    (level : ℕ) (name t : Text)
    → IsName (suc level) name
    → count_underscores (written (suc level) name ++ t) ≡ 0
unfolding replace
count-written level [] t h = elim h [ ]
count-written level (c ∷ s) t h = ground arith

pub read_name :
    (level : ℕ) (name : Text)
    → IsName level name
    → (if ltb 0 level then replace b'+' b'/' (written level name) else written level name) ≡ name
read_name zero name h = refl
read_name (suc level) [] h = elim h [ ]
read_name (suc level) (c ∷ s) h = ground (arith, replace-back (c ∷ s) h.2)

pub StopsAt-of_Follows :
    (level : ℕ) (rest : Text) → Follows level rest → StopsAt (λ c. not (nat_beq c underscore)) rest
StopsAt-of_Follows level [] h = tt
StopsAt-of_Follows level (c ∷ s) h = ground arith

pub Follows-mono : (k n : ℕ) (rest : Text) → k ≤ n → Follows k rest → Follows n rest
Follows-mono k n [] le h = tt
Follows-mono k n (c ∷ s) le h = (h.0, omega arith)

pub count-Follows : (level : ℕ) (rest : Text) → Follows level rest → count_underscores rest ≤ level
count-Follows level [] h = omega arith
count-Follows level (c ∷ s) h = h.1

pub Follows-replicate :
    (level : ℕ) (t : Text)
    → count_underscores t ≡ 0
    → Follows (suc level) (replicate (suc level) underscore ++ t)
Follows-replicate level t h = (refl, omega (arith, count-replicate (suc level) t))

pub level_read :
    (level : ℕ) (t : Text)
    → count_underscores t ≡ 0
    → parse_level_at_level level (replicate level underscore ++ t) ≡ done t tt
unfolding parse_level_at_level
level_read level t h =
    let n : count_underscores (replicate level underscore ++ t) ≡ level =
      omega (arith, count-replicate level t) in
    rw n (ground (arith, drop-replicate level t))

pub level_ends :
    (level : ℕ) (rest : Text)
    → Follows level rest
    → parse_level_at_level (suc level) rest ≡ backtrace
unfolding parse_level_at_level
level_ends level rest h = ground (arith, count-Follows level rest h)

pub not_underscores :
    (s : Text) → All (λ c. c ≢ underscore) s → All (λ c. not (nat_beq c underscore) ≡ true) s
not_underscores [] h = tt
not_underscores (c ∷ s) h = (ground arith, not_underscores s h.1)
