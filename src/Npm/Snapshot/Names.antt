-- ===== src/Npm/Snapshot/Names.antt =====
-- `name_without_path` of crates/module_fetcher/src/npm/resolution/snapshot.rs.
use server_based_deno.Base.{
  ℕ, suc, ◌+◌, ◌≡◌, ◌≢◌, refl, sym, ap, none, some, [], ◌∷◌, ◌++◌, Text, length, length-append,
  take, drop, starts_with, Without, arith, append_assoc,
}
use server_based_deno.Npm.Snapshot.{find, up_to_slash, name_without_path}

-- A name of a package: `chalk`, or `@scope/chalk`.
pub data IsPackageName : Text → Type 0 where
  plain : (c : ℕ) (s : Text) → c ≢ b'@' → Without b'/' (c ∷ s) → IsPackageName (c ∷ s)
  scoped :
      (scope name : Text)
      → Without b'/' scope
      → Without b'/' name
      → IsPackageName (b'@' ∷ (scope ++ b'/' ∷ name))

find-append : (c : ℕ) (s t : Text) → Without c s → find c (s ++ c ∷ t) ≡ some (length s)
find-append c [] t h = ground arith
find-append c (d ∷ s) t h = ground (arith, find-append c s t h.1)

find-Without : (c : ℕ) (s : Text) → Without c s → find c s ≡ none
find-Without c [] h = refl
find-Without c (d ∷ s) h = ground (arith, find-Without c s h.1)

drop_past : (c : ℕ) (s t : Text) → drop (suc (length s)) (s ++ c ∷ t) ≡ t
drop_past c [] t = refl
drop_past c (d ∷ s) t = drop_past c s t

take-append : (s t : Text) → take (length s) (s ++ t) ≡ s
take-append [] t = refl
take-append (c ∷ s) t = ap (λ (r : Text). c ∷ r) (take-append s t)

module _ (c : ℕ) (s : Text) (other : c ≢ b'@') (w : Without b'/' (c ∷ s)) where
  plain_whole : name_without_path (c ∷ s) ≡ c ∷ s
  unfolding name_without_path starts_with
  plain_whole = ground (arith, find-Without b'/' (c ∷ s) w)

  plain_cut : (sub : Text) → name_without_path (c ∷ s ++ b'/' ∷ sub) ≡ c ∷ s
  unfolding name_without_path starts_with
  plain_cut sub = ground (arith, find-append b'/' (c ∷ s) sub w, take-append (c ∷ s) (b'/' ∷ sub))

module _ (scope name : Text) (ws : Without b'/' scope) (wn : Without b'/' name) where
  scoped_start :
      (t : Text)
      → name_without_path (b'@' ∷ (scope ++ b'/' ∷ t))
        ≡ up_to_slash (b'@' ∷ (scope ++ b'/' ∷ t)) (suc (suc (length scope))) (find b'/' t)
  unfolding name_without_path starts_with
  scoped_start t = ground (arith, find-append b'/' scope t ws, drop_past b'/' scope t)

  scoped_whole : name_without_path (b'@' ∷ (scope ++ b'/' ∷ name)) ≡ b'@' ∷ (scope ++ b'/' ∷ name)
  scoped_whole = rw scoped_start (rw (find-Without b'/' name wn) refl)

  scoped_length : suc (suc (length scope)) + length name ≡ length (b'@' ∷ (scope ++ b'/' ∷ name))
  scoped_length = omega (arith, length-append scope (b'/' ∷ name))

  scoped_cut :
      (sub : Text)
      → name_without_path (b'@' ∷ (scope ++ b'/' ∷ name) ++ b'/' ∷ sub)
        ≡ b'@' ∷ (scope ++ b'/' ∷ name)
  scoped_cut sub =
      let whole : b'@' ∷ (scope ++ b'/' ∷ name) ++ b'/' ∷ sub
          ≡ b'@' ∷ (scope ++ b'/' ∷ (name ++ b'/' ∷ sub)) =
        rw append_assoc refl in
      let cut : take (suc (suc (length scope)) + length name)
            (b'@' ∷ (scope ++ b'/' ∷ name) ++ b'/' ∷ sub)
          ≡ b'@' ∷ (scope ++ b'/' ∷ name) =
        rw scoped_length (take-append (b'@' ∷ (scope ++ b'/' ∷ name)) (b'/' ∷ sub)) in
      rw whole (rw scoped_start (rw (find-append b'/' name sub wn) (rw (sym whole) cut)))

-- The name of a package stays as it is, and an import of one of its files is cut to it.
pub name_without_path_lem :
    (name sub : Text)
    → IsPackageName name
    → (name_without_path name ≡ name) × (name_without_path (name ++ b'/' ∷ sub) ≡ name)
name_without_path_lem name sub (plain c s other w) =
    (plain_whole c s other w, plain_cut c s other w sub)
name_without_path_lem name sub (scoped scope n ws wn) =
    (scoped_whole scope n ws wn, scoped_cut scope n ws wn sub)
