-- ===== src/Base/Rows.antt =====
-- What the statements on a table keep: a predicate on every row, a relation between the rows of two
-- tables, and the keys.
use mathlib.Core.Path.{◌≡◌, refl, subst, sym, ◌∙◌}
use mathlib.Core.Logic.{inl, inr, ◌≢◌}
use mathlib.Core.Bool.{Bool, true, false, false≢true}
use mathlib.Core.Option.{Option, none, some, some-injective}
use mathlib.Core.List.{List, [], ◌∷◌, Memᴰ}
use native.Mathlib.Omega.{arith}
use coven_github.Base.Tests.{Eq, ◌==◌, Bool-cases, nat_Eq, text_Eq, ==_refl, ne_of_==}
use coven_github.Base.Lists.{All, any, every}
use coven_github.Base.Tables.{update_where, select_where, delete_where, first_by, earlier}

module _ {ℓ κ} {A : Type ℓ} {P : A → Type κ} where
  pub All-map {μ} : {Q : A → Type μ} (xs : List A) → ((x : A) → P x → Q x) → All P xs → All Q xs
  All-map [] f h = tt
  All-map (x ∷ xs) f h = (f x h.0, All-map xs f h.1)

  pub All-update_where {μ} :
      {Q : A → Type μ} (p : A → Bool) (f : A → A) (xs : List A)
      → ((x : A) → P x → p x ≡ true → Q (f x))
      → ((x : A) → P x → p x ≡ false → Q x)
      → All P xs
      → All Q (update_where p f xs)
  unfolding update_where
  All-update_where p f [] hit miss h = tt
  All-update_where p f (x ∷ xs) hit miss h = elim (Bool-cases (p x)) [
    | inl e ↦ rw e (hit x h.0 e, All-update_where p f xs hit miss h.1)
    | inr e ↦ rw e (miss x h.0 e, All-update_where p f xs hit miss h.1)
  ]

  pub All-delete_where {μ} :
      {Q : A → Type μ} (p : A → Bool) (xs : List A)
      → ((x : A) → P x → p x ≡ false → Q x)
      → All P xs
      → All Q (delete_where p xs)
  unfolding delete_where
  All-delete_where p [] keep h = tt
  All-delete_where p (x ∷ xs) keep h = elim (Bool-cases (p x)) [
    | inl e ↦ rw e (All-delete_where p xs keep h.1)
    | inr e ↦ rw e (keep x h.0 e, All-delete_where p xs keep h.1)
  ]

  pub All-select_where {μ} :
      {Q : A → Type μ} (p : A → Bool) (xs : List A)
      → ((x : A) → P x → p x ≡ true → Q x)
      → All P xs
      → All Q (select_where p xs)
  unfolding select_where
  All-select_where p [] keep h = tt
  All-select_where p (x ∷ xs) keep h = elim (Bool-cases (p x)) [
    | inl e ↦ rw e (keep x h.0 e, All-select_where p xs keep h.1)
    | inr e ↦ rw e (All-select_where p xs keep h.1)
  ]

module _ {ℓ} {A : Type ℓ} where
  -- An update of rows that a selection leaves out, before and after, does not touch the selection.
  pub select_where-update_where :
      (p q : A → Bool) (f : A → A) (xs : List A)
      → ((x : A) → q x ≡ true → p x ≡ false)
      → ((x : A) → q x ≡ true → p (f x) ≡ false)
      → select_where p (update_where q f xs) ≡ select_where p xs
  unfolding select_where update_where
  select_where-update_where p q f [] before after = refl
  select_where-update_where p q f (x ∷ xs) before after =
      let ih = select_where-update_where p q f xs before after in
      elim (Bool-cases (q x)) [ inl e ↦ rw (e, before x e, after x e) ih | inr e ↦ rw (e, ih) refl ]

module _ {ℓ κ} {A : Type ℓ} (P : A → Type κ) (before : A → A → Bool) where
  pub of_earlier :
      (x : A) (o : Option A) {z : A}
      → P x
      → ((y : A) → o ≡ some y → P y)
      → earlier before x o ≡ some z
      → P z
  unfolding earlier
  of_earlier x none h rest e = subst P (some-injective _ _ e) h
  of_earlier x (some y) h rest e = elim (Bool-cases (before y x)) [
    | inl q ↦ subst P (some-injective _ _ (rw q at e)) (rest y refl)
    | inr q ↦ subst P (some-injective _ _ (rw q at e)) h
  ]

  -- The first row is one of the rows.
  pub All-first_by : (xs : List A) {x : A} → All P xs → first_by before xs ≡ some x → P x
  unfolding first_by
  All-first_by [] h e = cc
  All-first_by (y ∷ ys) h e = of_earlier y (first_by before ys) h.0 (λ z q. All-first_by ys h.1 q) e

pub All-zip {ℓ κ μ ν} :
    {A : Type ℓ} {P : A → Type κ} {Q : A → Type μ} {S : A → Type ν} (xs : List A)
    → ((x : A) → P x → Q x → S x)
    → All P xs
    → All Q xs
    → All S xs
All-zip [] f h k = tt
All-zip (x ∷ xs) f h k = (f x h.0 k.0, All-zip xs f h.1 k.1)

pub All_all {ℓ κ} : {A : Type ℓ} {P : A → Type κ} (xs : List A) → ((x : A) → P x) → All P xs
All_all [] f = tt
All_all (x ∷ xs) f = (f x, All_all xs f)

module _ {ℓ} {A : Type ℓ} where
  pub any-update_where :
      (q p : A → Bool) (f : A → A) (xs : List A)
      → ((x : A) → q (f x) ≡ q x)
      → any q (update_where p f xs) ≡ any q xs
  unfolding update_where
  any-update_where q p f [] same = refl
  any-update_where q p f (x ∷ xs) same = ground (arith, same x, any-update_where q p f xs same)

  pub any-delete_where-false :
      (q p : A → Bool) (xs : List A) → any q xs ≡ false → any q (delete_where p xs) ≡ false
  unfolding delete_where
  any-delete_where-false q p [] h = refl
  any-delete_where-false q p (x ∷ xs) h = ground (arith, any-delete_where-false q p xs)

  -- A row that is kept is still found.
  pub any-delete_where_kept :
      (q p : A → Bool) (xs : List A)
      → All (λ x. q x ≡ true → p x ≡ false) xs
      → any q xs ≡ true
      → any q (delete_where p xs) ≡ true
  unfolding delete_where
  any-delete_where_kept q p [] apart h = h
  any-delete_where_kept q p (x ∷ xs) apart h =
      ground (arith, apart.0, any-delete_where_kept q p xs apart.1)

  pub every_of_All : (p : A → Bool) (xs : List A) → All (λ x. p x ≡ true) xs → every p xs ≡ true
  every_of_All p [] h = refl
  every_of_All p (x ∷ xs) h = ground (arith, h.0, every_of_All p xs h.1)

  -- No two rows have the same key.
  abbrev pub Distinct {κ} : {K : Type κ} ⦃e : Eq K⦄ → (A → K) → List A → Type 0
  Distinct key [] = Unit
  Distinct key (x ∷ xs) = (any (λ y. key y == key x) xs ≡ false) × Distinct key xs

  abbrev pub Cross {κ μ} : {B : Type κ} → (A → B → Type μ) → List A → List B → Type μ
  Cross R xs ys = All (λ x. All (R x) ys) xs

  pub Distinct-update_where {κ} :
      {K : Type κ} ⦃e : Eq K⦄ (key : A → K) (p : A → Bool) (f : A → A) (xs : List A)
      → ((x : A) → key (f x) ≡ key x)
      → Distinct key xs
      → Distinct key (update_where p f xs)
  unfolding update_where
  Distinct-update_where key p f [] same h = tt
  Distinct-update_where key p f (x ∷ xs) same h =
      let rest = Distinct-update_where key p f xs same h.1 in
      let none_else = any-update_where (λ y. key y == key x) p f xs (λ y. rw same) ∙ h.0 in
      elim (Bool-cases (p x)) [
        | inl q ↦ rw (q, same) (none_else, rest)
        | inr q ↦ rw q (none_else, rest)
      ]

  pub Distinct-delete_where {κ} :
      {K : Type κ} ⦃e : Eq K⦄ (key : A → K) (p : A → Bool) (xs : List A)
      → Distinct key xs
      → Distinct key (delete_where p xs)
  unfolding delete_where
  Distinct-delete_where key p [] h = tt
  Distinct-delete_where key p (x ∷ xs) h =
      let rest = Distinct-delete_where key p xs h.1 in
      elim (Bool-cases (p x)) [
        | inl q ↦ rw q rest
        | inr q ↦ rw q (any-delete_where-false (λ y. key y == key x) p xs h.0, rest)
      ]

  pub All_of_any-false : (p : A → Bool) (xs : List A) → any p xs ≡ false → All (λ x. p x ≡ false) xs
  All_of_any-false p [] h = tt
  All_of_any-false p (x ∷ xs) h = (ground arith, All_of_any-false p xs (ground arith))

  pub any-false_of_All : (p : A → Bool) (xs : List A) → All (λ x. p x ≡ false) xs → any p xs ≡ false
  any-false_of_All p [] h = refl
  any-false_of_All p (x ∷ xs) h = ground (arith, any-false_of_All p xs h.1)

  -- Two rows of one key are one row.
  pub Distinct-unique {κ} :
      {K : Type κ} ⦃e : Eq K⦄ (key : A → K) (xs : List A)
      → Distinct key xs
      → Cross (λ x y. key y ≡ key x → y ≡ x) xs xs
  Distinct-unique key [] h = tt
  Distinct-unique key (x ∷ xs) h =
      let others = All_of_any-false (λ y. key y == key x) xs h.0 in
      (
        (λ _. refl, All-map xs (λ y ne same. absurd (ne_of_== _ _ ne same)) others),
        All-zip xs (λ y ne rest. (λ same. absurd (ne_of_== _ _ ne (sym same)), rest)) others
            (Distinct-unique key xs h.1),
      )

  pub All_known {κ} :
      {K : Type κ} ⦃e : Eq K⦄ (key : A → K) (xs : List A)
      → All (λ x. any (λ y. key y == key x) xs ≡ true) xs
  All_known key [] = tt
  All_known key (x ∷ xs) =
      (ground (arith, ==_refl (key x)), All-map xs (λ y h. ground (arith, h)) (All_known key xs))

module _ {ℓ} {A : Type ℓ} where
  pub All_mem : (xs : List A) → All (λ x. Memᴰ x xs) xs
  All_mem [] = tt
  All_mem (x ∷ xs) = (Memᴰ.head refl, All-map xs (λ y m. Memᴰ.tail m) (All_mem xs))

  earlier-ne-none : (before : A → A → Bool) (x : A) (o : Option A) → earlier before x o ≢ none
  unfolding earlier
  earlier-ne-none before x none e = cc
  earlier-ne-none before x (some y) e = ground (arith, e)

  -- There is no first row only of no rows.
  pub first_by-none {κ} :
      (P : A → Type κ) (before : A → A → Bool) (xs : List A) → first_by before xs ≡ none → All P xs
  unfolding first_by
  first_by-none P before [] e = tt
  first_by-none P before (x ∷ xs) e = absurd (earlier-ne-none before x (first_by before xs) e)

  -- What holds of the rows that are selected holds of all the rows that fit the test.
  pub select_where-All {κ} :
      (P : A → Type κ) (p : A → Bool) (xs : List A)
      → All P (select_where p xs)
      → All (λ x. p x ≡ true → P x) xs
  unfolding select_where
  select_where-All P p [] h = tt
  select_where-All P p (x ∷ xs) h = elim (Bool-cases (p x)) [
    | inl e ↦ let (here, rest) = rw e at h in (λ _. here, select_where-All P p xs rest)
    | inr e ↦ (λ hit. absurd (false≢true (sym e ∙ hit)), select_where-All P p xs (rw e at h))
  ]
