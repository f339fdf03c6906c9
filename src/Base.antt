-- ===== src/Base.antt =====
-- The names that all modules share: the libraries', passed on, and those of the children.
mod Tests
mod Lists
mod Segments
pub mod Effect
mod Text
pub mod Dict
pub mod Int
pub use Tests.*
pub use Lists.*
pub use Segments.*
pub use Effect.{
  Exit, returned, panicked, M, proceed, ◌>>◌, state-then_pure, bind-returned, bind-panicked,
  bind-to, bind-exit,
}
unfoldable pub use Effect.{pure, panic, gets, exit, defer, modify, ◌>>=◌}
pub use Effect.Keeps.*
pub use Effect.Post.*
unfoldable pub use Text.{to_lower}
pub use Text.{to_lower_idem}
pub use Prim.Native.Nat.{ℕ, zero, suc, ◌+◌, ◌-◌, ◌*◌, ◌%◌, ◌^◌, ◌≤◌, ◌<◌}
pub use Prim.Native.String.{String, ◌++◌ as concat}
pub use mathlib.Core.Path.{◌≡◌, refl, sym, ap, subst, ◌∙◌, fun_ext}
pub use mathlib.Core.Logic.{◌≢◌, ◌↔◌, ◌⊎◌, inl, inr}
pub use mathlib.Core.Bool.{Bool, true, false, not, ◌&&◌, ◌||◌}
pub use mathlib.Core.Option.{Option, none, some}
pub use mathlib.Core.List.{List, [], ◌∷◌, ◌++◌, map, append-nil, append_assoc}
pub use native.Mathlib.Omega.{arith}
pub use text.Mathlib.Text.{◌==◌}
pub use text.Mathlib.TextEquality.{eq_iff}
pub use text.Mathlib.TextPositions.{eq_refl}
