-- ===== src/Base/Tests.antt =====
-- Boolean tests, the conditional, and equality tests as an interface with instances.
use Prim.Native.Nat.{ℕ, compare, Ordering}
use Prim.Native.String.{String, compare as compare_text}
use mathlib.Core.Path.{◌≡◌, refl, sym, ap, ◌∙◌}
use mathlib.Core.Logic.{◌≢◌, ◌⊎◌, inl, inr}
use mathlib.Core.Bool.{Bool, true, false, not, ◌&&◌, false≢true}
use mathlib.Core.Option.{Option, none, some}
use native.Mathlib.Omega.{arith}
use text.Mathlib.Text.{◌==◌ as text_eq}
use text.Mathlib.TextEquality.{eq_iff}

abbrev pub ltb : ℕ → ℕ → Bool
ltb a b = elim (compare a b) [ Ordering.lt ↦ true | _ ↦ false ]

abbrev pub leb : ℕ → ℕ → Bool
leb a b = elim (compare a b) [ Ordering.gt ↦ false | _ ↦ true ]

abbrev pub nat_eq : ℕ → ℕ → Bool
nat_eq a b = elim (compare a b) [ Ordering.eq ↦ true | _ ↦ false ]

-- The byte order of two texts, which is SQLite's BINARY collation.
abbrev pub text_ltb : String → String → Bool
text_ltb a b = elim (compare_text a b) [ Ordering.lt ↦ true | _ ↦ false ]

infix 1 if◌then◌else◌
abbrev pub if◌then◌else◌ {ℓ} : {A : Type ℓ} → Bool → A → A → A
if true then x else y = x
if false then x else y = y

-- A type whose values the code compares with `==`, and what the comparison tells.
pub record Eq {ℓ} (A : Type ℓ) : Type ℓ where
  pub test : A → A → Bool
  pub sound : (a b : A) → test a b ≡ true → a ≡ b
  pub same : (a : A) → test a a ≡ true

abbrev pub ◌==◌ {ℓ} : {A : Type ℓ} ⦃cmp : Eq A⦄ → A → A → Bool
◌==◌ ⦃cmp⦄ = cmp.test

infix 50 ◌==◌
pub nat_eq_sound : (a b : ℕ) → nat_eq a b ≡ true → a ≡ b
nat_eq_sound a b h = ground (arith, h)

pub nat_eq_refl : (a : ℕ) → nat_eq a a ≡ true
nat_eq_refl a = ground arith

instance abbrev pub nat_Eq : Eq ℕ
nat_Eq = record { test = nat_eq; sound = nat_eq_sound; same = nat_eq_refl }

instance abbrev pub text_Eq : Eq String
text_Eq = record { test = text_eq; sound = λ a b. (eq_iff a b).0; same = λ a. (eq_iff a a).1 refl }

-- To split on a computed value and keep the equation.
pub Bool-cases : (b : Bool) → (b ≡ true) ⊎ (b ≡ false)
Bool-cases true = inl refl
Bool-cases false = inr refl

pub Option-cases {ℓ} : {A : Type ℓ} (o : Option A) → (o ≡ none) ⊎ ((a : A) × (o ≡ some a))
Option-cases none = inl refl
Option-cases (some a) = inr (a, refl)

pub and-eq-true : (a b : Bool) → (a && b) ≡ true → (a ≡ true) × (b ≡ true)
and-eq-true a b h = ground arith

pub and-eq-false_right : (a b : Bool) → a ≡ true → (a && b) ≡ false → b ≡ false
and-eq-false_right a b p h = ground arith

pub ne_of_test {ℓ} : {A : Type ℓ} (f : A → Bool) (a b : A) → f a ≡ false → f b ≡ true → a ≢ b
ne_of_test f a b p q e = false≢true (sym p ∙ ap f e ∙ q)

module _ {ℓ} {A : Type ℓ} ⦃cmp : Eq A⦄ where
  pub ==_refl : (a : A) → (a == a) ≡ true
  ==_refl a = cmp.same a

  pub eq_of_== : (a b : A) → (a == b) ≡ true → a ≡ b
  eq_of_== a b h = cmp.sound a b h

  pub ne_of_== : (a b : A) → (a == b) ≡ false → a ≢ b
  ne_of_== a b h p = false≢true (sym h ∙ ap (λ x. x == b) p ∙ cmp.same b)

  pub ==_of_ne : (a b : A) → a ≢ b → (a == b) ≡ false
  ==_of_ne a b h = elim (Bool-cases (a == b)) [ inl p ↦ absurd (h (eq_of_== a b p)) | inr p ↦ p ]

pub false_of_not_true : (b : Bool) → ¬ (b ≡ true) → b ≡ false
false_of_not_true true h = absurd (h refl)
false_of_not_true false h = refl

pub false_of_not-eq-true : (b : Bool) → not b ≡ true → b ≡ false
false_of_not-eq-true true h = cc
false_of_not-eq-true false h = refl
