-- ===== src/Common/Classes.antt =====
-- The trait `Eq` of keys and set elements, with the law that the trait asks for.
use Prim.Native.Nat.{ℕ}
use Prim.Native.String.{String}
use mathlib.Core.Path.{◌≡◌, refl}
use mathlib.Core.Logic.{◌↔◌}
use mathlib.Core.Bool.{Bool, true, false, ◌&&◌}
use mathlib.Core.Option.{Option, none, some}
use mathlib.Core.List.{List, [], ◌∷◌}
use native.Mathlib.Omega.{arith}
use text.Mathlib.Text.{◌==◌ as str_eq}
use text.Mathlib.TextEquality.{eq_iff}
use agent_mesh.Common.Tests.{◌==◌, ==_iff}

pub record Eq {ℓ} (A : Type ℓ) : Type ℓ where
  pub beq : A → A → Bool
  pub beq_iff : (a b : A) → (beq a b ≡ true) ↔ (a ≡ b)

instance abbrev pub nat_eq : Eq ℕ
nat_eq = record { beq = ◌==◌; beq_iff = ==_iff }

instance abbrev pub string_eq : Eq String
string_eq = record { beq = str_eq; beq_iff = eq_iff }

module _ {ℓ} {A : Type ℓ} ⦃e : Eq A⦄ where
  pub beq_refl : (a : A) → e.beq a a ≡ true
  beq_refl a = (e.beq_iff a a).1 refl

  pub beq_symm : (a b : A) → e.beq a b ≡ e.beq b a
  beq_symm a b = ground (arith, e.beq_iff a b, e.beq_iff b a)

  -- `==` of `Option`.
  abbrev pub opt_eq : Option A → Option A → Bool
  opt_eq none none = true
  opt_eq (some a) (some b) = e.beq a b
  opt_eq _ _ = false

  pub opt_eq_iff : (a b : Option A) → (opt_eq a b ≡ true) ↔ (a ≡ b)
  opt_eq_iff none none = ground arith
  opt_eq_iff none (some b) = ground arith
  opt_eq_iff (some a) none = ground arith
  opt_eq_iff (some a) (some b) = ground (arith, e.beq_iff a b)

  -- `==` of slices.
  abbrev pub list_eq : List A → List A → Bool
  list_eq [] [] = true
  list_eq (a ∷ as') (b ∷ bs) = e.beq a b && list_eq as' bs
  list_eq _ _ = false

  pub list_eq_iff : (as' bs : List A) → (list_eq as' bs ≡ true) ↔ (as' ≡ bs)
  list_eq_iff [] [] = ground arith
  list_eq_iff [] (b ∷ bs) = ground arith
  list_eq_iff (a ∷ as') [] = ground arith
  list_eq_iff (a ∷ as') (b ∷ bs) = ground (arith, e.beq_iff a b, list_eq_iff as' bs)

instance abbrev pub list_eq_class {ℓ} : {A : Type ℓ} ⦃e : Eq A⦄ → Eq (List A)
list_eq_class = record { beq = list_eq; beq_iff = list_eq_iff }
