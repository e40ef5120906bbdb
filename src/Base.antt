-- ===== src/Base.antt =====
-- The names that the other modules share: the libraries', passed on, and those of the children.
mod Tests
mod Lists
mod Results
pub mod Effects
mod Strings
mod Maps
mod Decimal
pub use Tests.*
pub use Lists.*
pub use Results.*
pub use Strings.*
pub use Maps.*
pub use Decimal.*
unfoldable pub use Lists.{sort_by}
unfoldable pub use Decimal.{print_usize, parse_usize}
unfoldable pub use Maps.{get, insert, insert_in_order, remove}
unfoldable pub use Strings.{
  text_beq, text_ltb, strip_prefix, starts_with, ends_with, split_once, rsplit_once, split, join,
  replace, to_lowercase,
}
pub use Prim.Native.Nat.{ℕ, zero, suc, ◌+◌, ◌-◌, ◌*◌, ◌/◌, ◌%◌, ◌^◌, ◌≤◌, ◌<◌}
pub use Prim.Native.String.{String}
pub use mathlib.Core.Path.{◌≡◌, refl, sym, ap, subst, subst₂, ◌∙◌}
pub use mathlib.Core.Logic.{◌≢◌, ◌↔◌, ◌⊎◌, inl, inr}
pub use mathlib.Core.Bool.{Bool, true, false, not, ◌&&◌, ◌||◌}
pub use mathlib.Core.Option.{Option, none, some}
pub use mathlib.Core.List.{List, [], ◌∷◌, ◌++◌, map, append_assoc, append-nil}
pub use native.Mathlib.Omega.{arith}
