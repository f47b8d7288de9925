-- ===== src/Base/Options.antt =====
-- Chains of `Option`: `?`, `and_then` and `or`.
use mathlib.Core.Path.{◌≡◌, refl, subst, ap, sym, ◌∙◌}
use mathlib.Core.Logic.{inl, inr}
use mathlib.Core.Bool.{Bool, true, false}
use mathlib.Core.Option.{Option, none, some, some-injective}
use coven_github.Base.Tests.{if◌then◌else◌, Bool-cases}

infixl 5 ◌>>=◌
abbrev pub ◌>>=◌ {ℓ κ} : {A : Type ℓ} {B : Type κ} → Option A → (A → Option B) → Option B
none >>= f = none
some a >>= f = f a

abbrev pub get_or_else {ℓ} : {A : Type ℓ} → Option A → A → A
get_or_else none d = d
get_or_else (some a) d = a

abbrev pub first_some {ℓ} : {A : Type ℓ} → Option A → Option A → Option A
first_some none other = other
first_some (some a) other = some a

-- `.filter(…)` on an `Option`
abbrev pub keep_if {ℓ} : {A : Type ℓ} → (A → Bool) → Option A → Option A
keep_if p none = none
keep_if p (some a) = if p a then some a else none

-- What a chain that succeeds went through.
pub >>=-eq-some {ℓ κ} :
    {A : Type ℓ} {B : Type κ} (o : Option A) (f : A → Option B) {b : B}
    → (o >>= f) ≡ some b
    → (a : A) × (o ≡ some a) × (f a ≡ some b)
>>=-eq-some none f h = cc
>>=-eq-some (some a) f h = (a, refl, h)

-- A predicate on the value, where there is one.
abbrev pub AllSome {ℓ κ} : {A : Type ℓ} → (A → Type κ) → Option A → Type κ
AllSome P none = Unit
AllSome P (some a) = P a

module _ {ℓ κ} {A : Type ℓ} (P : A → Type κ) where
  pub AllSome-if :
      (b : Bool) (x y : Option A) → AllSome P x → AllSome P y → AllSome P (if b then x else y)
  AllSome-if true x y h k = h
  AllSome-if false x y h k = k

  -- The branch that is taken knows the test.
  pub AllSome-guard :
      (b : Bool) (x y : Option A)
      → (b ≡ true → AllSome P x)
      → (b ≡ false → AllSome P y)
      → AllSome P (if b then x else y)
  AllSome-guard true x y h k = h refl
  AllSome-guard false x y h k = k refl

  pub AllSome->>= {μ} :
      {B : Type μ} (o : Option B) (f : B → Option A)
      → ((b : B) → o ≡ some b → AllSome P (f b))
      → AllSome P (o >>= f)
  AllSome->>= none f h = tt
  AllSome->>= (some b) f h = h b refl

  pub of_AllSome : (o : Option A) {a : A} → AllSome P o → o ≡ some a → P a
  of_AllSome none h e = cc
  of_AllSome (some b) h e = subst P (some-injective _ _ e) h

  pub AllSome_found : (o : Option A) → ((a : A) → o ≡ some a → P a) → AllSome P o
  AllSome_found none h = tt
  AllSome_found (some a) h = h a refl

pub keep_if-eq-some {ℓ} :
    {A : Type ℓ} (p : A → Bool) (o : Option A) {a : A} → keep_if p o ≡ some a → p a ≡ true
keep_if-eq-some p none h = cc
keep_if-eq-some p (some b) h = elim (Bool-cases (p b)) [
  | inl e ↦ ap p (sym (some-injective _ _ (rw e at h))) ∙ e
  | inr e ↦ cc (rw e at h)
]
