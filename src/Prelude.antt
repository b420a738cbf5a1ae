-- ===== src/Prelude.antt =====
-- The names that the other modules share: the libraries', passed on, and those of two children.
mod Tests
mod Lists
pub mod Int
pub use Tests.*
pub use Lists.*
pub use Prim.Native.Nat.{ℕ, zero, suc, ◌+◌, ◌-◌, ◌*◌, ◌/◌, ◌%◌, ◌^◌, ◌≤◌, ◌<◌, min, max}
pub use Prim.Native.String.{String}
pub use mathlib.Core.Path.{◌≡◌, refl, sym, ap, ◌∙◌}
pub use mathlib.Core.Logic.{◌≢◌, ◌↔◌, ◌⊎◌, inl, inr}
pub use mathlib.Core.Bool.{Bool, true, false, not, ◌&&◌, ◌||◌}
pub use mathlib.Core.Option.{Option, none, some}
pub use mathlib.Core.List.{List, [], ◌∷◌, ◌++◌, map}
pub use native.Mathlib.Omega.{arith}
pub use text.Mathlib.TextEquality.{eq_iff}

-- A chain of steps, of which each may raise, as `none`.
infixl 5 ◌>>=◌
abbrev pub ◌>>=◌ {ℓ κ} : {A : Type ℓ} {B : Type κ} → Option A → (A → Option B) → Option B
none >>= k = none
some a >>= k = k a

-- A statement that raises is `false` beside the state it leaves; then the next does not run.
infixl 10 ◌⨾◌
abbrev pub ◌⨾◌ {ℓ} : {A : Type ℓ} → A × Bool → (A → A × Bool) → A × Bool
(w, true) ⨾ k = k w
(w, false) ⨾ k = (w, false)

pub then_passed {ℓ} :
    {A : Type ℓ} (r : A × Bool) (k : A → A × Bool)
    → (r ⨾ k).1 ≡ true
    → (r.1 ≡ true) × (r ⨾ k ≡ k r.0)
then_passed (w, true) k e = (refl, refl)
then_passed (w, false) k e = cc

pub then_onward {ℓ} : {A : Type ℓ} (r : A × Bool) (k : A → A × Bool) → r.1 ≡ true → r ⨾ k ≡ k r.0
then_onward (w, true) k e = refl
then_onward (w, false) k e = cc

pub then_raised {ℓ} : {A : Type ℓ} (r : A × Bool) (k : A → A × Bool) → r.1 ≡ false → r ⨾ k ≡ r
then_raised (w, true) k e = cc
then_raised (w, false) k e = refl
