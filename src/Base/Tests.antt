-- ===== src/Base/Tests.antt =====
-- Boolean tests on the native numbers, the conditional, and the interface of testable equality.
use Prim.Native.Nat.{ℕ, compare, Ordering}
use Prim.Native.String.{String}
use mathlib.Core.Path.{◌≡◌, refl}
use mathlib.Core.Logic.{◌↔◌, ◌⊎◌, inl, inr}
use mathlib.Core.Bool.{Bool, true, false}
use mathlib.Core.Option.{Option, none, some}
use native.Mathlib.Omega.{arith}
use text.Mathlib.Text.{◌==◌ as str_eq}
use text.Mathlib.TextEquality.{eq_iff}

abbrev pub ltb : ℕ → ℕ → Bool
ltb a b = elim (compare a b) [ Ordering.lt ↦ true | _ ↦ false ]

abbrev pub leb : ℕ → ℕ → Bool
leb a b = elim (compare a b) [ Ordering.gt ↦ false | _ ↦ true ]

abbrev pub nat_beq : ℕ → ℕ → Bool
nat_beq a b = elim (compare a b) [ Ordering.eq ↦ true | _ ↦ false ]

infix 1 if◌then◌else◌
abbrev pub if◌then◌else◌ {ℓ} : {A : Type ℓ} → Bool → A → A → A
if true then x else y = x
if false then x else y = y

pub nat_beq_iff : (a b : ℕ) → (nat_beq a b ≡ true) ↔ (a ≡ b)
nat_beq_iff a b = ground arith

pub record Eq {ℓ} (A : Type ℓ) : Type ℓ where
  pub agree : A → A → Bool
  pub agree_iff : (x y : A) → (agree x y ≡ true) ↔ (x ≡ y)

infix 50 ◌==◌
abbrev pub ◌==◌ {ℓ} : {A : Type ℓ} ⦃test : Eq A⦄ → A → A → Bool
◌==◌ ⦃test⦄ = test.agree

pub ==_iff {ℓ} : {A : Type ℓ} ⦃e : Eq A⦄ → (a b : A) → ((a == b) ≡ true) ↔ (a ≡ b)
==_iff ⦃e⦄ = e.agree_iff

pub ==_refl {ℓ} : {A : Type ℓ} ⦃e : Eq A⦄ → (a : A) → (a == a) ≡ true
==_refl a = (==_iff a a).1 refl

pub ==_sym {ℓ} : {A : Type ℓ} ⦃e : Eq A⦄ → (a b : A) → (a == b) ≡ (b == a)
==_sym a b = ground (arith, ==_iff a b, ==_iff b a)

instance abbrev pub nat_eq : Eq ℕ
nat_eq = record { agree = nat_beq; agree_iff = nat_beq_iff }

instance abbrev pub string_eq : Eq String
string_eq = record { agree = str_eq; agree_iff = eq_iff }

pub Bool-cases : (b : Bool) → (b ≡ true) ⊎ (b ≡ false)
Bool-cases true = inl refl
Bool-cases false = inr refl

pub Option-cases {ℓ} : {A : Type ℓ} (o : Option A) → (o ≡ none) ⊎ ((a : A) × (o ≡ some a))
Option-cases none = inl refl
Option-cases (some a) = inr (a, refl)
