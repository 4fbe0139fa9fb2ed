-- ===== src/Prelude.antt =====
-- The names that the other modules share: the libraries', passed on, and those of the children.
mod Tests
mod Lists
mod Options
mod Words
pub mod Int
pub mod Strings
pub use Tests.*
pub use Lists.*
pub use Options.*
unfoldable pub use Tests.{bytes_eq}
unfoldable pub use Words.{put_u16, put_u32, put_u64, get_u32, copy_at, overwrite}
pub use Words.{
  length-put_u16, length-put_u32, length-put_u64, get_u32-put_u32, get_u32-put_u32_bound,
  overwrite-eq, copy_at-append, length-copy_at, copy_at-eq,
}
pub use Prim.Native.Nat.{ℕ, zero, suc, ◌+◌, ◌-◌, ◌*◌, ◌/◌, ◌%◌, ◌^◌, ◌≤◌, ◌<◌, min}
pub use mathlib.Core.Path.{◌≡◌, refl, sym, ap, ap₂, ◌∙◌}
pub use mathlib.Core.Logic.{◌≢◌, ◌↔◌, ◌⊎◌, inl, inr}
pub use mathlib.Core.Bool.{Bool, true, false, ◌&&◌, ◌||◌, not, false≢true}
pub use mathlib.Core.Option.{Option, none, some}
pub use mathlib.Core.List.{List, [], ◌∷◌, ◌++◌, map, append_assoc, append-nil}
pub use native.Mathlib.Omega.{arith}
