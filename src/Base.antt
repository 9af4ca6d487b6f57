-- ===== src/Base.antt =====
-- Names shared by every module: the libraries', passed on, and those of the children: Boolean
-- tests, lists and integers over the native numbers, exceptions, texts and database tables.
pub mod Tests
pub mod Lists
pub mod Int
pub mod Exception
pub mod Strings
pub mod Database
pub mod BigEndian
pub mod Substring
pub mod Every
pub use Tests.*
pub use Lists.*
pub use Int.*
pub use Exception.*
pub use Database.*
pub use Strings.{Text, Bytes, text, text_beq_iff, text_eq, AreBytes}
unfoldable pub use Strings.{text_beq, hex, from_hex, int_hex, from_be, pack, le_bytes, from_le}
pub use Prim.Native.Nat.{ℕ, zero, suc, ◌+◌, ◌-◌, ◌*◌, ◌/◌, ◌%◌, ◌^◌, ◌≤◌, ◌<◌}
pub use mathlib.Core.Path.{◌≡◌, refl, sym, ap, ◌∙◌}
pub use mathlib.Core.Logic.{◌≢◌, ◌↔◌, ◌⊎◌, inl, inr}
pub use mathlib.Core.Bool.{Bool, true, false, ◌&&◌, ◌||◌, not}
pub use mathlib.Core.Option.{Option, none, some}
pub use mathlib.Core.List.{List, [], ◌∷◌, ◌++◌, map, reverse}
pub use native.Mathlib.Omega.{arith}
