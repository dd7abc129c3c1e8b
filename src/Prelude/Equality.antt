-- ===== src/Prelude/Equality.antt =====
-- Equality tests of lists.
use Prim.Native.Nat.{ℕ}
use Prim.Native.Char.{code}
use Prim.Native.String.{String}
use mathlib.Core.Path.{◌≡◌, refl}
use mathlib.Core.Logic.{◌↔◌}
use mathlib.Core.Bool.{Bool, true, false}
use mathlib.Core.List.{List, [], ◌∷◌}
use native.Mathlib.Omega.{arith}
use sv2_apps_fork.Prelude.Tests.{KeyEq, if◌then◌else◌, nat_eq}

unfoldable pub list_agrees {ℓ} : {A : Type ℓ} → (A → A → Bool) → List A → List A → Bool
list_agrees test [] [] = true
list_agrees test [] (y ∷ ys) = false
list_agrees test (x ∷ xs) [] = false
list_agrees test (x ∷ xs) (y ∷ ys) =
    let rest = list_agrees test xs ys in if test x y then rest else false

module _ {ℓ} {A : Type ℓ} ⦃e : KeyEq A⦄ where
  pub list_agrees_sound : (xs ys : List A) → list_agrees e.agrees xs ys ≡ true → xs ≡ ys
  unfolding list_agrees
  list_agrees_sound [] [] h = refl
  list_agrees_sound [] (y ∷ ys) h = cc
  list_agrees_sound (x ∷ xs) [] h = cc
  list_agrees_sound (x ∷ xs) (y ∷ ys) h = ground (arith, e.agrees_iff x y, list_agrees_sound xs ys)

  pub list_agrees_refl : (xs : List A) → list_agrees e.agrees xs xs ≡ true
  unfolding list_agrees
  list_agrees_refl [] = refl
  list_agrees_refl (x ∷ xs) = ground (arith, e.agrees_iff x x, list_agrees_refl xs)

  pub list_agrees_iff : (xs ys : List A) → (list_agrees e.agrees xs ys ≡ true) ↔ (xs ≡ ys)
  list_agrees_iff xs ys = (list_agrees_sound xs ys, λ same. rw (← same) (list_agrees_refl xs))

instance abbrev pub list_eq {ℓ} : {A : Type ℓ} ⦃e : KeyEq A⦄ → KeyEq (List A)
list_eq ⦃e⦄ = record { agrees = list_agrees e.agrees; agrees_iff = list_agrees_iff }

-- The code points of a text.
abbrev pub codes : String → List ℕ
codes String.[] = []
codes (String.◌∷◌ c s) = code c ∷ codes s
