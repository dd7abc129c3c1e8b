-- ===== src/Prelude/Lists.antt =====
-- Lists measured and indexed by native numbers, under the library's names.
use Prim.Native.Nat.{ℕ, suc, ◌+◌, ◌≤◌}
use mathlib.Core.Path.{◌≡◌, refl}
use mathlib.Core.Bool.{Bool, true, false, not}
use mathlib.Core.Logic.{inl, inr}
use mathlib.Core.List.{List, [], ◌∷◌, ◌++◌}
use native.Mathlib.Omega.{arith}
use sv2_apps_fork.Prelude.Tests.{if◌then◌else◌, KeyEq, ◌==◌, Bool-cases}

module _ {ℓ} {A : Type ℓ} where
  abbrev pub length : List A → ℕ
  length [] = 0
  length (x ∷ xs) = suc (length xs)

  -- `Vec::retain`, `Iterator::filter`.
  abbrev pub keep : (A → Bool) → List A → List A
  keep p [] = []
  keep p (x ∷ xs) = let rest = keep p xs in if p x then x ∷ rest else rest

  pub length-append : (xs ys : List A) → length (xs ++ ys) ≡ length xs + length ys
  length-append [] ys = omega arith
  length-append (x ∷ xs) ys = omega (arith, length-append xs ys)

  pub length-keep-le : (p : A → Bool) (xs : List A) → length (keep p xs) ≤ length xs
  length-keep-le p [] = omega arith
  length-keep-le p (x ∷ xs) = ground (arith, length-keep-le p xs)

module _ {ℓ} {A : Type ℓ} ⦃e : KeyEq A⦄ where
  -- `contains` of a list.
  abbrev pub contains : A → List A → Bool
  contains a [] = false
  contains a (x ∷ xs) = let rest = contains a xs in if x == a then true else rest

  -- No element stands twice.
  abbrev pub Distinct : List A → Type 0
  Distinct [] = Unit
  Distinct (x ∷ xs) = (contains x xs ≡ false) × Distinct xs

  pub contains-keep :
      (j k : A) (xs : List A)
      → contains k (keep (λ x. not (x == j)) xs) ≡ (if j == k then false else contains k xs)
  contains-keep j k [] = ground arith
  contains-keep j k (x ∷ xs) =
      ground (arith, contains-keep j k xs, e.agrees_iff x j, e.agrees_iff x k, e.agrees_iff j k)

  pub keep-Distinct : (j : A) (xs : List A) → Distinct xs → Distinct (keep (λ x. not (x == j)) xs)
  keep-Distinct j [] d = tt
  keep-Distinct j (x ∷ xs) d = elim (Bool-cases (x == j)) [
    | inl same ↦ rw (same) (keep-Distinct j xs d.1)
    | inr other ↦ rw (other) (ground (arith, contains-keep j x xs, d.0), keep-Distinct j xs d.1)
  ]

  pub contains-snoc :
      (k x : A) (xs : List A)
      → contains k (xs ++ (x ∷ [])) ≡ (if x == k then true else contains k xs)
  contains-snoc k x [] = refl
  contains-snoc k x (y ∷ ys) = ground (arith, contains-snoc k x ys)

  pub snoc-Distinct :
      (x : A) (xs : List A) → contains x xs ≡ false → Distinct xs → Distinct (xs ++ (x ∷ []))
  snoc-Distinct x [] new d = (refl, tt)
  snoc-Distinct x (y ∷ ys) new d = (
    ground (arith, contains-snoc y x ys, d.0, new, e.agrees_iff x y, e.agrees_iff y x),
    snoc-Distinct x ys (ground (arith, new)) d.1,
  )
