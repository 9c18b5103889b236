-- ===== src/Prelude.antt =====
-- The names that the other modules share: the libraries', passed on, and those of the children.
mod Tests
mod Lists
mod Unique
mod Fallible
mod Sort
pub use Fallible.{Result, ok, err, Result-cases}
pub use Tests.*
pub use Lists.{
  length, length-append, take, drop, is_empty, All, In, head, later, all-append, all-uncons,
  all-cons, All-append, All-In, find_sound, In-append_left, In-append_right, length-map, keep-In,
  In-keep, In-map,
}
pub use Sort.{
  Before, Before-In, IsSorted, In-sort_by, sort_by-In, sort_by-IsSorted, take-In, take-sorted,
}
pub use Unique.{
  any-append, any-or, any_ext, all_ext, all_weaken, all-true, any-keep, all-keep, unique-append,
  unique-keep, any-map, all-map, unique-map, unique-map_same, unique-false, any-keep-not,
  any-In-false,
}
unfoldable pub use Unique.{unique}
unfoldable pub use Sort.{insert_by, sort_by}
unfoldable pub use Lists.{all, any, keep, find}
pub use Prim.Native.Nat.{ℕ, zero, suc, ◌+◌, ◌-◌, ◌*◌, ◌/◌, ◌%◌, ◌^◌, ◌≤◌, ◌<◌, min}
pub use Prim.Native.String.{String}
pub use mathlib.Core.Path.{◌≡◌, refl, sym, ap, ◌∙◌, subst}
pub use mathlib.Core.Logic.{◌≢◌, ◌↔◌, ◌⊎◌, inl, inr}
pub use mathlib.Core.Bool.{Bool, true, false, ◌&&◌, ◌||◌, not}
pub use mathlib.Core.Option.{Option, none, some}
pub use mathlib.Core.List.{List, [], ◌∷◌, ◌++◌, map, append_assoc, append-nil}
pub use native.Mathlib.Omega.{arith}
