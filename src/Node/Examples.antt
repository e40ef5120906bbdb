-- ===== src/Node/Examples.antt =====
-- Specifiers of packages, and one whose name is not in ASCII.
use server_based_deno.Base.{◌≡◌, refl, true, false, none, some, [], ◌∷◌, ◌++◌, codes, arith}
use server_based_deno.Npm.Snapshot.Names.{IsPackageName}
use server_based_deno.Node.{find, slice_to, slice_from, parse_specifier, is_relative_specifier}
use server_based_deno.Node.Specifiers.{parse_specifier_lem}

parse_specifier_lem_example :
    (parse_specifier (codes "@types/node") ≡ some (some (codes "@types/node", codes ".")))
    × (parse_specifier (codes "@types/node" ++ b'/' ∷ codes "fs.d.ts")
        ≡ some (some (codes "@types/node", b'.' ∷ b'/' ∷ codes "fs.d.ts")))
parse_specifier_lem_example =
    parse_specifier_lem (codes "@types/node") (codes "fs.d.ts")
      (IsPackageName.scoped (codes "types") (codes "node") (ground arith) (ground arith))
      (ground arith) (ground arith) (ground arith)

-- The name `é` has two bytes and one character.
not_ascii : parse_specifier (233 ∷ codes "/lib") ≡ some (some (233 ∷ [], codes ".lib"))
unfolding parse_specifier find slice_to slice_from
not_ascii = refl

percent_refused : parse_specifier (codes "a%2Fb") ≡ some none
unfolding parse_specifier find slice_to slice_from
percent_refused = refl

parent_is_relative : is_relative_specifier (codes "../a") ≡ true
unfolding is_relative_specifier
parent_is_relative = refl

three_dots_are_not : is_relative_specifier (codes ".../a") ≡ false
unfolding is_relative_specifier
three_dots_are_not = refl
