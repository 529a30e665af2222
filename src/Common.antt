-- ===== src/Common.antt =====
-- The names that all other modules share: the libraries', passed on, and those of the children.
mod Tests
mod Lists
mod Permutations
mod Dicts
pub use Dicts.{dict_get-dict_set, dict_get-other}
unfoldable pub use Dicts.{dict_get, dict_set}
pub use Permutations.{keep-Perm, middle-Perm}
pub use mathlib.Core.List.{Permᴰ}
pub use Tests.*
pub use Lists.{
  length, length-append, replicate, is_empty, any-append, keep-append, not-any-not, map-reverse,
  All, Some, Some-left, Some-right, All-append, All-map,
}
unfoldable pub use Lists.{any, all, keep, contains}
pub use Prim.Native.Nat.{ℕ, zero, suc, ◌+◌, ◌-◌, ◌*◌, ◌^◌, ◌≤◌, ◌<◌}
pub use Prim.Native.String.{String}
pub use mathlib.Core.Path.{◌≡◌, subst, refl, sym, ap, ◌∙◌}
pub use mathlib.Core.Logic.{◌≢◌, ◌↔◌, ◌⊎◌, inl, inr}
pub use mathlib.Core.Bool.{Bool, true, false, not, ◌&&◌, ◌||◌}
pub use mathlib.Core.Option.{Option, none, some}
pub use mathlib.Core.List.{List, [], ◌∷◌, ◌++◌, map, reverse, map-append, append_assoc, append-nil}
pub use native.Mathlib.Omega.{arith}
pub use text.Mathlib.TextEquality.{eq_iff}
