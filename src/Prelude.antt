-- ===== src/Prelude.antt =====
-- The names that the other modules share: the libraries', passed on, and those of the children.
pub mod Tests
pub mod Int
pub mod Lists
pub use Tests.*
pub use Int.{ℤ, pos, negsuc, pos_part, neg_part, ◌≤ℤ◌, ◌<ℤ◌, ◌==ℤ◌, leb_ℤ, ltb_ℤ}
pub use Int.{
  ==ℤ_iff, ==ℤ_refl, ℤ-eq-cases, ne→==ℤ, lt→==ℤ, lt→ne, -ℤ_eq_zero, one_le-sub, to_short_lem,
  int_laws,
}
pub use Int.{+ℤ_parts, -ℤ_parts, eq_of_parts, gt_of_not_lt}
unfoldable pub use Int.{◌+ℤ◌, ◌-ℤ◌, to_short}
pub use Lists.{length, get_elem?, is_some, All}
pub use Lists.{
  length-append, length-modify, modify-modify, find_idx-eq_some, All-map, All-get_elem?, some-inj,
  get_elem?-modify,
}
pub use Lists.{get_elem?-modify_ne, get_elem?_lt}
unfoldable pub use Lists.{modify, erase_idx, find_idx, replicate}
pub use Prim.Native.Nat.{
  ℕ, zero, suc, ◌+◌, ◌-◌, ◌*◌, ◌/◌, ◌%◌, ◌^◌, ◌≤◌, ◌<◌, bit_and, bit_or, bit_xor,
}
pub use mathlib.Core.Path.{◌≡◌, refl, sym, ap, ◌∙◌, subst}
pub use mathlib.Core.Logic.{◌≢◌, ◌↔◌, ◌⊎◌, inl, inr}
pub use mathlib.Core.Bool.{Bool, true, false, not, ◌&&◌, ◌||◌}
pub use mathlib.Core.Option.{Option, none, some}
pub use mathlib.Core.List.{List, [], ◌∷◌, ◌++◌, map}
pub use native.Mathlib.Omega.{arith}
unfoldable pub use native.Mathlib.Decide.{dec_lt}
