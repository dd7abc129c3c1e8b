-- ===== src/Prelude/Assoc.antt =====
-- `HashMap` and `SharedMap`: an association list in which a key that is written or dropped loses
-- every older entry, so that a key stands at most once. Iteration order is the list's.
use mathlib.Core.Path.{◌≡◌, refl}
use mathlib.Core.Bool.{Bool, true}
use mathlib.Core.Option.{Option, none, some}
use mathlib.Core.List.{List, [], ◌∷◌}
use native.Mathlib.Omega.{arith}
use sv2_apps_fork.Prelude.Tests.{if◌then◌else◌, KeyEq, ◌==◌, Bool-cases}
use mathlib.Core.Logic.{◌⊎◌, ◌≢◌, inl, inr}

abbrev pub Assoc {ℓ κ} : Type ℓ → Type κ → Type (ℓ ⊔ κ)
Assoc K V = List (K × V)

abbrev pub adjusted {ℓ} : {V : Type ℓ} → (V → V) → Option V → Option V
adjusted f none = none
adjusted f (some v) = some (f v)

module _ {ℓ κ} {K : Type ℓ} {V : Type κ} ⦃e : KeyEq K⦄ where
  unfoldable pub lookup : K → Assoc K V → Option V
  lookup k [] = none
  lookup k ((j, v) ∷ m) = let rest = lookup k m in if j == k then some v else rest

  unfoldable pub without : K → Assoc K V → Assoc K V
  without k [] = []
  without k ((j, v) ∷ m) = let rest = without k m in if j == k then rest else (j, v) ∷ rest

  unfoldable pub insert : K → V → Assoc K V → Assoc K V
  unfolding without
  insert k v m = (k, v) ∷ without k m

  -- `retain`: a dropped key has no other entry to fall back on.
  unfoldable pub retain : (K → V → Bool) → Assoc K V → Assoc K V
  unfolding without
  retain p [] = []
  retain p ((j, v) ∷ m) = let rest = retain p m in if p j v then (j, v) ∷ rest else without j rest

  -- `with` of a map: the value of a key is changed in place.
  unfoldable pub adjust : K → (V → V) → Assoc K V → Assoc K V
  adjust k f [] = []
  adjust k f ((j, v) ∷ m) = (j, if j == k then f v else v) ∷ adjust k f m

  -- `for_each` over a map whose values change.
  unfoldable pub map_values : (V → V) → Assoc K V → Assoc K V
  map_values f [] = []
  map_values f ((j, v) ∷ m) = (j, f v) ∷ map_values f m

  pub lookup-adjust :
      (k j : K) (f : V → V) (m : Assoc K V)
      → lookup j (adjust k f m) ≡ (if k == j then adjusted f (lookup j m) else lookup j m)
  unfolding lookup adjust
  lookup-adjust k j f [] = ground arith
  lookup-adjust k j f ((i, v) ∷ m) =
      ground (arith, lookup-adjust k j f m, e.agrees_iff i k, e.agrees_iff i j, e.agrees_iff k j)

  pub lookup-map_values :
      (j : K) (f : V → V) (m : Assoc K V) → lookup j (map_values f m) ≡ adjusted f (lookup j m)
  unfolding lookup map_values
  lookup-map_values j f [] = refl
  lookup-map_values j f ((i, v) ∷ m) = ground (arith, lookup-map_values j f m)

  pub lookup-without :
      (k j : K) (m : Assoc K V) → lookup j (without k m) ≡ (if k == j then none else lookup j m)
  unfolding lookup without
  lookup-without k j [] = ground arith
  lookup-without k j ((i, v) ∷ m) =
      ground (arith, lookup-without k j m, e.agrees_iff i k, e.agrees_iff i j, e.agrees_iff k j)

  pub lookup-insert :
      (k j : K) (v : V) (m : Assoc K V)
      → lookup j (insert k v m) ≡ (if k == j then some v else lookup j m)
  unfolding lookup insert
  lookup-insert k j v m = ground (arith, lookup-without k j m)

  abbrev pub retained : (K → V → Bool) → K → Option V → Option V
  retained p k none = none
  retained p k (some v) = if p k v then some v else none

  pub lookup-retain :
      (p : K → V → Bool) (k : K) (m : Assoc K V) → lookup k (retain p m) ≡ retained p k (lookup k m)
  unfolding lookup retain
  lookup-retain p k [] = refl
  lookup-retain p k ((j, v) ∷ m) =
      ground (arith, lookup-retain p k m, lookup-without j k (retain p m), e.agrees_iff j k)

  pub lookup_of_retain :
      (p : K → V → Bool) (k : K) (v : V) (m : Assoc K V)
      → lookup k (retain p m) ≡ some v
      → (lookup k m ≡ some v) × (p k v ≡ true)
  lookup_of_retain p k v m h = ground (arith, lookup-retain p k m)

  pub retain-none :
      (p : K → V → Bool) (k : K) (m : Assoc K V) → lookup k m ≡ none → lookup k (retain p m) ≡ none
  retain-none p k m h = ground (arith, lookup-retain p k m)

  pub lookup_of_without :
      (j k : K) (v : V) (m : Assoc K V) → lookup k (without j m) ≡ some v → lookup k m ≡ some v
  lookup_of_without j k v m h = ground (arith, lookup-without j k m)

  pub without-none : (j k : K) (m : Assoc K V) → lookup k m ≡ none → lookup k (without j m) ≡ none
  without-none j k m h = ground (arith, lookup-without j k m)

  pub lookup_of_insert :
      (j k : K) (v x : V) (m : Assoc K V)
      → lookup k (insert j v m) ≡ some x
      → ((j ≡ k) × (v ≡ x)) ⊎ (lookup k m ≡ some x)
  lookup_of_insert j k v x m h = elim (Bool-cases (j == k)) [
    | inl same ↦ inl ((e.agrees_iff j k).0 same, ground (arith, lookup-insert j k v m))
    | inr other ↦ inr (ground (arith, lookup-insert j k v m))
  ]

  pub lookup-insert_self : (k : K) (v : V) (m : Assoc K V) → lookup k (insert k v m) ≡ some v
  lookup-insert_self k v m = ground (arith, lookup-insert k k v m, e.agrees_iff k k)

  pub lookup-insert_ne :
      (j k : K) (v : V) (m : Assoc K V) → j ≢ k → lookup k (insert j v m) ≡ lookup k m
  lookup-insert_ne j k v m apart = ground (arith, lookup-insert j k v m, e.agrees_iff j k)

  pub lookup-without_self : (k : K) (m : Assoc K V) → lookup k (without k m) ≡ none
  lookup-without_self k m = ground (arith, lookup-without k k m, e.agrees_iff k k)

  pub lookup-empty : (k : K) → lookup k (let m : Assoc K V = [] in m) ≡ none
  unfolding lookup
  lookup-empty k = refl

pub ruleset assoc_laws = (lookup-without, lookup-insert, lookup-retain, lookup-empty)
