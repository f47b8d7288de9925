-- ===== src/Config/Scopes/Access.antt =====
-- Who may be routed to, and what the dashboard shows of it (crates/config/src/lib.rs).
use mathlib.Core.Option.{some-injective}
use mathlib.Core.Path.{subst}
use coven_github.Config.Scopes.{
  override_of, narrowed, routing_view, allowed_ids, scope_for, ids, allowed_familiars, closed_scope,
  familiar_by_bot, familiar_by_id, familiar_by_label,
}
use coven_github.Base.{
  ℕ, Bool, Bool-cases, List, Memᴰ, Option-cases, String, [], arith, contains, find, inl, inr,
  is_empty, nat_Eq, refl, select_where, some, text_Eq, true, ◌||◌, ◌∷◌, ◌≡◌, All, All-map,
  All-select_where, All_mem, eq_of_==, false, ◌==◌, ◌⊎◌,
}
use coven_github.Config.{Config, FamiliarConfig, InstallationConfig, installation_of}

ids-select_where :
    (p : String → Bool) (fs : List FamiliarConfig)
    → ids (select_where (λ (f : FamiliarConfig). p f.id) fs) ≡ select_where p (ids fs)
unfolding select_where
ids-select_where p [] = refl
ids-select_where p (f ∷ fs) = ground (arith, ids-select_where p fs)

ids-allowed :
    (fs : List FamiliarConfig) (x : InstallationConfig)
    → ids (allowed_familiars fs x) ≡ allowed_ids fs x
unfolding allowed_familiars allowed_ids
ids-allowed fs x = elim (Bool-cases (is_empty x.familiars)) [
  | inl e ↦ rw e refl
  | inr e ↦ rw e (ids-select_where (λ (id : String). contains id x.familiars) fs)
]

-- The dashboard's view tells what a delivery's scope is: the same familiars, and the lanes are the
-- view's under the view's override for the repository.
pub scope_for-routing_view :
    (cfg : Config) (i : ℕ) (repo : String)
    → (ids (scope_for cfg i repo).familiars ≡ (routing_view cfg i).familiars)
      × ((scope_for cfg i repo).triggers
          ≡ narrowed (override_of repo (routing_view cfg i).repos) (routing_view cfg i).triggers)
unfolding scope_for routing_view narrowed override_of
scope_for-routing_view cfg i repo = elim (Bool-cases (is_empty cfg.installations)) [
  | inl e ↦ rw e (refl, refl)
  | inr e ↦ rw e (elim (Option-cases (installation_of i cfg.installations)) [
    | inl q ↦ rw q (refl, refl)
    | inr (x, q) ↦ rw q (ids-allowed cfg.familiars x, refl)
  ])
]

-- The installation's entry allows the familiar: its allow-list is empty or names it.
pub record Allows (cfg : Config) (i : ℕ) (f : FamiliarConfig) : Type 0 where
  pub entry : InstallationConfig
  pub stored : Memᴰ entry cfg.installations
  pub same : entry.id ≡ i
  pub on_list : (is_empty entry.familiars || contains f.id entry.familiars) ≡ true

pub find-holds {ℓ} :
    {A : Type ℓ} (p : A → Bool) (xs : List A) {x : A}
    → find p xs ≡ some x
    → (p x ≡ true) × Memᴰ x xs
find-holds p [] e = cc
find-holds p (y ∷ ys) e = elim (Bool-cases (p y)) [
  | inl q ↦
      subst (λ x. (p x ≡ true) × Memᴰ x (y ∷ ys)) (some-injective _ _ (rw q at e))
        (q, Memᴰ.head refl)
  | inr q ↦ let (h, m) = find-holds p ys (rw q at e) in (h, Memᴰ.tail m)
]

-- The familiar is one of the configuration, and one that the installation may route to.
abbrev pub Routable : Config → ℕ → FamiliarConfig → Type 0
Routable cfg i f = Memᴰ f cfg.familiars × Allows cfg i f

module _ (cfg : Config) (i : ℕ) where
  Routable-allowed :
      (x : InstallationConfig)
      → Memᴰ x cfg.installations
      → x.id ≡ i
      → All (Routable cfg i) (allowed_familiars cfg.familiars x)
  unfolding allowed_familiars
  Routable-allowed x m same = elim (Bool-cases (is_empty x.familiars)) [
    | inl e ↦ rw e (
        All-map cfg.familiars
          (λ f k. (k, record { entry = x; stored = m; same = same; on_list = rw e refl }))
          (All_mem cfg.familiars))
    | inr e ↦ rw e (
        All-select_where {P = λ f. Memᴰ f cfg.familiars}
          (λ (f : FamiliarConfig). contains f.id x.familiars) cfg.familiars
          (λ f k q. (k, record { entry = x; stored = m; same = same; on_list = rw (e, q) refl }))
          (All_mem cfg.familiars))
  ]

  pub Routable-scope :
      (repo : String)
      → is_empty cfg.installations ≡ false
      → All (Routable cfg i) (scope_for cfg i repo).familiars
  unfolding scope_for closed_scope
  Routable-scope repo e = rw e (elim (Option-cases (installation_of i cfg.installations)) [
    | inl q ↦ rw q tt
    | inr (x, q) ↦
        let (same, m) = find-holds (λ (x : InstallationConfig). x.id == i) cfg.installations q in
        rw q (Routable-allowed x m (eq_of_== _ _ same))
  ])

All-found {ℓ κ} :
    {A : Type ℓ} (P : A → Type κ) (p : A → Bool) (xs : List A) {x : A}
    → All P xs
    → find p xs ≡ some x
    → P x × (p x ≡ true)
All-found P p [] h e = cc
All-found P p (y ∷ ys) h e = elim (Bool-cases (p y)) [
  | inl q ↦ subst (λ x. P x × (p x ≡ true)) (some-injective _ _ (rw q at e)) (h.0, q)
  | inr q ↦ All-found P p ys h.1 (rw q at e)
]

-- Once installations are configured, whatever a delivery is routed by, its bot's login, a label or
-- an id, the familiar found is a configured one, and the delivery's installation has an entry whose
-- allow-list is empty or names the familiar.
pub routed-Routable :
    (cfg : Config) (i : ℕ) (repo name : String) (f : FamiliarConfig)
    → is_empty cfg.installations ≡ false
    → let s = scope_for cfg i repo in
      (familiar_by_bot s name ≡ some f)
        ⊎ ((familiar_by_label s name ≡ some f) ⊎ (familiar_by_id s name ≡ some f))
      → Routable cfg i f
unfolding familiar_by_bot familiar_by_label familiar_by_id
routed-Routable cfg i repo name f e (inl h) = (All-found _ _ _ (Routable-scope cfg i repo e) h).0
routed-Routable cfg i repo name f e (inr (inl h)) =
    (All-found _ _ _ (Routable-scope cfg i repo e) h).0
routed-Routable cfg i repo name f e (inr (inr h)) =
    (All-found _ _ _ (Routable-scope cfg i repo e) h).0
