-- ===== src/Common.antt =====
-- The names that the other modules share: the libraries' and those of the children.
mod Tests
mod Lists
mod Texts
pub mod Results
pub mod Machine
pub mod Fields
pub use Tests.*
pub use Lists.*
unfoldable pub use Texts.{Text-discrete}
pub use Texts.{
  Text, text_of, ◌=t◌, len_utf8, byte_len, as_bytes, is_ascii_digit, is_ascii_lowercase,
  is_ascii_uppercase, is_ascii_alphanumeric, is_ascii_hexdigit, is_control, ascii_lower,
  to_ascii_lowercase, trim, starts_with, contains, ends_with, split, text_le,
}
pub use Prim.Native.Nat.{ℕ, zero, suc, ◌+◌, ◌-◌, ◌*◌, ◌/◌, ◌%◌, ◌^◌, ◌≤◌, ◌<◌, min, max}
pub use mathlib.Core.Path.{◌≡◌, refl, sym, ap, ◌∙◌, subst}
pub use mathlib.Core.Logic.{◌≢◌, ◌↔◌, ◌⊎◌, inl, inr}
pub use mathlib.Core.Bool.{Bool, true, false, ◌&&◌, ◌||◌, not}
pub use mathlib.Core.Option.{Option, none, some}
pub use mathlib.Core.List.{List, [], ◌∷◌, ◌++◌, map}
pub use native.Mathlib.Omega.{arith}
unfoldable pub use native.Mathlib.Decide.{ℕ_discrete}
