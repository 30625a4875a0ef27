-- ===== src/Common.antt =====
-- The names that the other modules share: the libraries', passed on, and those of the children.
mod Tests
mod Lists
mod Names
pub mod Sort
pub mod Counts
mod Int
pub mod Turns
pub use Tests.*
pub use Lists.*
pub use Int.{ℤ, pos, negsuc, leb_ℤ, leb_ℤ_total, leb_ℤ_trans}
pub use Names.{
  Name, bytes, leb_name, leb_name_refl, leb_name_total, leb_name_trans, leb_name_antisymm,
}
pub use Names.{
  count-append, count-select, perm_of_count, count-perm, select, name_eqb, name_eqb_iff,
}
unfoldable pub use Names.{name_discrete}
pub use Names.{count, Occurs}
pub use Prim.Native.Nat.{ℕ, zero, suc, ◌+◌, ◌-◌, ◌*◌, ◌≤◌, ◌<◌}
pub use mathlib.Core.Path.{◌≡◌, refl, sym, ap, ap₂, ◌∙◌, subst, fun_ext}
pub use mathlib.Core.Logic.{◌≢◌, ◌↔◌, ◌⊎◌, inl, inr, ite, if_pos, if_neg}
pub use mathlib.Core.Bool.{Bool, true, false, ◌&&◌, ◌||◌, not}
pub use mathlib.Core.Option.{Option, none, some}
pub use mathlib.Core.List.{List, [], ◌∷◌, ◌++◌, map, reverse, Perm, append-nil, append_assoc}
pub use native.Mathlib.Omega.{arith}
unfoldable pub use native.Mathlib.Decide.{dec_lt, ℕ_discrete}
