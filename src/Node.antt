-- ===== src/Node.antt =====
-- Specifiers as Node reads them: crates/module_fetcher/src/node/mod.rs. Indices into a `str` are
-- byte indices, and a slice off the boundaries of characters panics, `none`.
pub mod Specifiers
mod Examples
use server_based_deno.Base.{
  ℕ, zero, suc, ◌+◌, ◌-◌, ◌≡◌, Bool, true, false, not, ◌&&◌, ◌||◌, Option, none, some, List, [],
  ◌∷◌, ◌++◌, Text, codes, text_keyed, nat_keyed, ◌==◌, nat_beq, ltb, any, drop, length, starts_with,
  if◌then◌else◌,
}
use mathlib.Core.Option

-- `char::len_utf8`
abbrev pub len_utf8 : ℕ → ℕ
len_utf8 c = if ltb c 128 then 1 else (if ltb c 2048 then 2 else (if ltb c 65536 then 3 else 4))

-- `str::find(char)`
unfoldable pub find : ℕ → Text → Option ℕ
find c [] = none
find c (d ∷ s) =
    let later = Option.map (λ i. len_utf8 d + i) (find c s) in if nat_beq d c then some 0 else later

-- `&s[..n]`
unfoldable pub slice_to : ℕ → Text → Option Text
slice_to n [] = if nat_beq n 0 then some [] else none
slice_to n (c ∷ s) =
    let rest = Option.map (λ (t : Text). c ∷ t) (slice_to (n - len_utf8 c) s) in
    if nat_beq n 0 then some [] else (if ltb n (len_utf8 c) then none else rest)

-- `&s[n..]`
unfoldable pub slice_from : ℕ → Text → Option Text
slice_from n [] = if nat_beq n 0 then some [] else none
slice_from n (c ∷ s) =
    let rest = slice_from (n - len_utf8 c) s in
    if nat_beq n 0 then some (c ∷ s) else (if ltb n (len_utf8 c) then none else rest)

-- Where the name ends: an index or none, and whether there may be a name.
abbrev pub scope_end : ℕ → Option Text → Option (Bool × Option ℕ)
scope_end index none = none
scope_end index (some rest) = some (true, Option.map (λ i. i + index + 1) (find b'/' rest))

abbrev pub scoped_end : Text → Option ℕ → Option (Bool × Option ℕ)
scoped_end specifier none = some (false, none)
scoped_end specifier (some index) = scope_end index (slice_from (index + 1) specifier)

abbrev pub separator : Text → Option (Bool × Option ℕ)
separator [] = some (false, none)
separator (c ∷ s) =
    if nat_beq c b'@'
    then scoped_end (c ∷ s) (find b'/' (c ∷ s))
    else some (true, find b'/' (c ∷ s))

-- The subpath drops as many characters as the name has bytes.
abbrev pub subpath : Text → Option ℕ → Text
subpath specifier none = codes "."
subpath specifier (some index) = b'.' ∷ drop index specifier

abbrev pub package_name : Text → Option ℕ → Option Text
package_name specifier none = some specifier
package_name specifier (some index) = slice_to index specifier

abbrev pub is_bad_char : ℕ → Bool
is_bad_char c = nat_beq c b'%' || nat_beq c b'\\'

abbrev pub named : Text → Bool → Option ℕ → Option Text → Option (Option (Text × Text))
named specifier valid index none = none
named specifier valid index (some name) =
    some
      (if valid && not (any is_bad_char name) then some (name, subpath specifier index) else none)

abbrev pub with_separator : Text → Option (Bool × Option ℕ) → Option (Option (Text × Text))
with_separator specifier none = none
with_separator specifier (some (valid, index)) =
    named specifier valid index (package_name specifier index)

unfoldable pub parse_specifier : Text → Option (Option (Text × Text))
parse_specifier specifier = with_separator specifier (separator specifier)

-- The characters after a leading dot.
abbrev pub dot_then : Text → Bool
dot_then [] = true
dot_then (c ∷ []) = nat_beq c b'/' || nat_beq c b'.'
dot_then (c ∷ d ∷ s) = nat_beq c b'/' || (nat_beq c b'.' && nat_beq d b'/')

unfoldable pub is_relative_specifier : Text → Bool
is_relative_specifier [] = false
is_relative_specifier (c ∷ s) = nat_beq c b'.' && dot_then s

unfoldable pub should_be_treated_as_relative_or_absolute_path : Text → Bool
unfolding is_relative_specifier
should_be_treated_as_relative_or_absolute_path [] = false
should_be_treated_as_relative_or_absolute_path (c ∷ s) =
    nat_beq c b'/' || is_relative_specifier (c ∷ s)
