-- ===== src/Node/Specifiers.antt =====
-- `parse_specifier` of crates/module_fetcher/src/node/mod.rs on the names of packages.
use server_based_deno.Base.{
  ℕ, ◌+◌, ◌<◌, ◌≡◌, ◌≢◌, refl, sym, ap, ◌∙◌, true, false, none, some, [], ◌∷◌, ◌++◌, Text, codes,
  All, All-append, Without, any, drop-append, length, length-append, append_assoc, arith,
}
use mathlib.Core.Option
use server_based_deno.Npm.Snapshot.Names.{IsPackageName, plain, scoped}
use server_based_deno.Node.{find, slice_to, slice_from, separator, is_bad_char, parse_specifier}

abbrev pub IsAscii : Text → Type 0
IsAscii s = All (λ c. c < 128) s

find-append :
    (s t : Text) → IsAscii s → Without b'/' s → find b'/' (s ++ b'/' ∷ t) ≡ some (length s)
unfolding find
find-append [] t a w = refl
find-append (c ∷ s) t a w = ground (arith, find-append s t a.1 w.1)

find-Without : (s : Text) → Without b'/' s → find b'/' s ≡ none
unfolding find
find-Without [] w = refl
find-Without (c ∷ s) w = ground (arith, find-Without s w.1)

slice_to-append : (s t : Text) → IsAscii s → slice_to (length s) (s ++ t) ≡ some s
unfolding slice_to
slice_to-append [] [] a = refl
slice_to-append [] (c ∷ t) a = refl
slice_to-append (c ∷ s) t a = ground (arith, slice_to-append s t a.1)

slice_from-append : (s t : Text) → IsAscii s → slice_from (length s) (s ++ t) ≡ some t
unfolding slice_from
slice_from-append [] [] a = refl
slice_from-append [] (c ∷ t) a = refl
slice_from-append (c ∷ s) t a = ground (arith, slice_from-append s t a.1)

-- Nothing in the name is refused.
abbrev pub IsClean : Text → Type 0
IsClean s = All (λ c. is_bad_char c ≡ false) s

no_bad_char : (s : Text) → IsClean s → any is_bad_char s ≡ false
no_bad_char [] h = refl
no_bad_char (c ∷ s) h = ground (arith, no_bad_char s h.1)

-- Once the end of the name is known, the rest follows.
whole_name :
    (name : Text)
    → IsClean name
    → separator name ≡ some (true, none)
    → parse_specifier name ≡ some (some (name, codes "."))
unfolding parse_specifier
whole_name name clean h = rw h (rw (no_bad_char name clean) refl)

name_and_path :
    (name sub : Text)
    → IsAscii name
    → IsClean name
    → separator (name ++ b'/' ∷ sub) ≡ some (true, some (length name))
    → parse_specifier (name ++ b'/' ∷ sub) ≡ some (some (name, b'.' ∷ b'/' ∷ sub))
unfolding parse_specifier
name_and_path name sub ascii clean h = rw h (
    rw (slice_to-append name (b'/' ∷ sub) ascii)
      (rw (no_bad_char name clean) (rw (drop-append name (b'/' ∷ sub)) refl)))

module _ (c : ℕ) (s : Text) (other : c ≢ b'@') (w : Without b'/' (c ∷ s))
    (ascii : IsAscii (c ∷ s)) where
  plain_whole : separator (c ∷ s) ≡ some (true, none)
  plain_whole = ground (arith, find-Without (c ∷ s) w)

  plain_path : (sub : Text) → separator (c ∷ s ++ b'/' ∷ sub) ≡ some (true, some (length (c ∷ s)))
  plain_path sub = ground (arith, find-append (c ∷ s) sub ascii w)

module _ (scope name : Text) (ws : Without b'/' scope) (wn : Without b'/' name)
    (as_ : IsAscii scope) (an : IsAscii name) where
  after_scope :
      (t : Text) → slice_from (length (b'@' ∷ scope) + 1) (b'@' ∷ (scope ++ b'/' ∷ t)) ≡ some t
  after_scope t =
      let front : b'@' ∷ (scope ++ b'/' ∷ t) ≡ (b'@' ∷ (scope ++ b'/' ∷ [])) ++ t =
        ap (λ l. b'@' ∷ l) (sym (append_assoc scope (b'/' ∷ []) t)) in
      let size : length (b'@' ∷ scope) + 1 ≡ length (b'@' ∷ (scope ++ b'/' ∷ [])) =
        omega (arith, length-append scope (b'/' ∷ [])) in
      rw front (
        rw size (
          slice_from-append (b'@' ∷ (scope ++ b'/' ∷ [])) t
            (omega arith, All-append (λ c. c < 128) scope (b'/' ∷ []) as_ (omega arith, tt))))

  scoped_separator :
      (t : Text)
      → separator (b'@' ∷ (scope ++ b'/' ∷ t))
        ≡ some (true, Option.map (λ i. i + length (b'@' ∷ scope) + 1) (find b'/' t))
  scoped_separator t =
      rw (find-append (b'@' ∷ scope) t (omega arith, as_) (ground arith, ws))
        (rw (after_scope t) refl)

  scoped_whole : separator (b'@' ∷ (scope ++ b'/' ∷ name)) ≡ some (true, none)
  scoped_whole = scoped_separator name ∙ rw (find-Without name wn) refl

  scoped_path :
      (sub : Text)
      → separator (b'@' ∷ (scope ++ b'/' ∷ name) ++ b'/' ∷ sub)
        ≡ some (true, some (length (b'@' ∷ (scope ++ b'/' ∷ name))))
  scoped_path sub =
      let whole : b'@' ∷ (scope ++ b'/' ∷ name) ++ b'/' ∷ sub
          ≡ b'@' ∷ (scope ++ b'/' ∷ (name ++ b'/' ∷ sub)) =
        rw append_assoc refl in
      let size : length name + length (b'@' ∷ scope) + 1 ≡ length (b'@' ∷ (scope ++ b'/' ∷ name)) =
        omega (arith, length-append scope (b'/' ∷ name)) in
      rw whole
        (scoped_separator (name ++ b'/' ∷ sub) ∙ rw (find-append name sub an wn) (rw size refl))

-- The name of a package has no leading dot.
abbrev pub StartsWithoutDot : Text → Type 0
StartsWithoutDot [] = Unit
StartsWithoutDot (c ∷ s) = c ≢ b'.'

-- The name of a package, scoped or not, stands for its root, and followed by a path for that path
-- in it, if the name is in ASCII, does not start with a dot, and has no percent sign and no
-- backslash.
pub parse_specifier_lem :
    (name sub : Text)
    → IsPackageName name
    → IsAscii name
    → IsClean name
    → StartsWithoutDot name
    → (parse_specifier name ≡ some (some (name, codes ".")))
      × (parse_specifier (name ++ b'/' ∷ sub) ≡ some (some (name, b'.' ∷ b'/' ∷ sub)))
parse_specifier_lem name sub (plain c s other w) ascii clean no_dot = (
  whole_name (c ∷ s) clean (plain_whole c s other w ascii),
  name_and_path (c ∷ s) sub ascii clean (plain_path c s other w ascii sub),
)
parse_specifier_lem name sub (scoped scope n ws wn) ascii clean no_dot =
    let (as_, an) = ascii_parts scope n ascii.1 in
    (
      whole_name _ clean (scoped_whole scope n ws wn as_ an),
      name_and_path _ sub ascii clean (scoped_path scope n ws wn as_ an sub),
    )
  where
    ascii_parts : (s t : Text) → IsAscii (s ++ b'/' ∷ t) → IsAscii s × IsAscii t
    ascii_parts [] t h = (tt, h.1)
    ascii_parts (c ∷ s) t h = let (hs, ht) = ascii_parts s t h.1 in ((h.0, hs), ht)
