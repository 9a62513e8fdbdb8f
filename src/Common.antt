-- ===== src/Common.antt =====
-- The names that the other modules share: the libraries', passed on, and those of the children.
mod Tests
mod Lists
mod Text
mod Maps
pub use Tests.*
pub use Lists.*
pub use Text.{Bytes, codes, bytes_eq_iff, bytes_eq_refl, has_prefix-append}
pub use Text.{contains_of_prefix, contains-append}
unfoldable pub use Text.{bytes_eq, has_prefix, contains}
unfoldable pub use Maps.{Map, lookup, erase, insert, any_key}
pub use Maps.{lookup-erase, lookup-erase-ne, lookup-insert, lookup-insert-ne, any_key-lookup}
pub use Prim.Native.Nat.{ℕ, zero, suc, ◌+◌, ◌-◌, ◌*◌, ◌/◌, ◌%◌, ◌^◌, ◌≤◌, ◌<◌}
pub use mathlib.Core.Path.{◌≡◌, refl, sym, ap, ◌∙◌}
pub use mathlib.Core.Logic.{◌≢◌, ◌↔◌, ◌⊎◌, inl, inr}
pub use mathlib.Core.Bool.{Bool, true, false, not, ◌&&◌, ◌||◌}
pub use mathlib.Core.Option.{Option, none, some}
pub use mathlib.Core.List.{List, [], ◌∷◌, ◌++◌, map, reverse, append-nil, append_assoc}
pub use native.Mathlib.Omega.{arith}
