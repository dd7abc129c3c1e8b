-- ===== src/Prelude/Tests.antt =====
-- Boolean tests on numbers and texts, and the conditional.
use Prim.Native.Nat.{ℕ, compare, Ordering}
use Prim.Native.String.{String}
use mathlib.Core.Path.{◌≡◌, refl}
use mathlib.Core.Logic.{◌↔◌, ◌⊎◌, inl, inr}
use mathlib.Core.Bool.{Bool, true, false}
use mathlib.Core.Option.{Option, none, some}
use native.Mathlib.Omega.{arith}
use text.Mathlib.Text.{◌==◌ as str_eq}
use text.Mathlib.TextEquality.{eq_iff}

abbrev pub ltb : ℕ → ℕ → Bool
ltb a b = elim (compare a b) [ Ordering.lt ↦ true | _ ↦ false ]

abbrev pub leb : ℕ → ℕ → Bool
leb a b = elim (compare a b) [ Ordering.gt ↦ false | _ ↦ true ]

abbrev nat_beq : ℕ → ℕ → Bool
nat_beq a b = elim (compare a b) [ Ordering.eq ↦ true | _ ↦ false ]

infix 1 if◌then◌else◌
abbrev pub if◌then◌else◌ {ℓ} : {A : Type ℓ} → Bool → A → A → A
if true then x else y = x
if false then x else y = y

pub nat_beq_iff : (a b : ℕ) → (nat_beq a b ≡ true) ↔ (a ≡ b)
nat_beq_iff a b = ground arith

-- Equality tests of a key type.
pub record KeyEq {ℓ} (A : Type ℓ) : Type ℓ where
  pub agrees : A → A → Bool
  pub agrees_iff : (a b : A) → (agrees a b ≡ true) ↔ (a ≡ b)

instance abbrev pub nat_eq : KeyEq ℕ
nat_eq = record { agrees = nat_beq; agrees_iff = nat_beq_iff }

pub Bool-cases : (b : Bool) → (b ≡ true) ⊎ (b ≡ false)
Bool-cases true = inl refl
Bool-cases false = inr refl

infix 50 ◌==◌
abbrev pub ◌==◌ {ℓ} : {A : Type ℓ} ⦃e : KeyEq A⦄ → A → A → Bool
◌==◌ ⦃e⦄ = e.agrees

pub Option-cases {ℓ} : {A : Type ℓ} (o : Option A) → (o ≡ none) ⊎ ((a : A) × (o ≡ some a))
Option-cases none = inl refl
Option-cases (some a) = inr (a, refl)

abbrev pub is_some {ℓ} : {A : Type ℓ} → Option A → Bool
is_some none = false
is_some (some a) = true

instance abbrev pub string_eq : KeyEq String
string_eq = record { agrees = str_eq; agrees_iff = eq_iff }

abbrev pair_agrees {ℓ κ} :
    {A : Type ℓ} {B : Type κ} ⦃e : KeyEq A⦄ ⦃d : KeyEq B⦄ → A × B → A × B → Bool
pair_agrees ⦃e⦄ ⦃d⦄ (a, b) (x, y) = if e.agrees a x then d.agrees b y else false

pub pair_agrees_iff {ℓ κ} :
    {A : Type ℓ} {B : Type κ} ⦃e : KeyEq A⦄ ⦃d : KeyEq B⦄ (p q : A × B)
    → (pair_agrees p q ≡ true) ↔ (p ≡ q)
pair_agrees_iff ⦃e⦄ ⦃d⦄ (a, b) (x, y) = ground (arith, e.agrees_iff a x, d.agrees_iff b y)

instance abbrev pub pair_eq {ℓ κ} :
    {A : Type ℓ} {B : Type κ} ⦃e : KeyEq A⦄ ⦃d : KeyEq B⦄ → KeyEq (A × B)
pair_eq = record { agrees = pair_agrees; agrees_iff = pair_agrees_iff }
