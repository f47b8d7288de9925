-- ===== src/Worker/Limits.antt =====
-- The caps of a claim: `run` of crates/worker/src/lib.rs takes the configured caps, and the caps of
-- the purchased plans for the installations that have none. That the store fails to list the plans
-- is not modelled.
use mathlib.Core.Path.{subst}
use coven_github.Store.Queue.{Caps, cap_of}
use coven_github.Base.{
  ℕ, List, Option, String, [], arith, if◌then◌else◌, nat_Eq, none, some, text_Eq, ◌==◌, ◌∷◌, ◌≡◌,
  Bool-cases, Distinct, Option-cases, any, ap, eq_of_==, false, inl, inr, refl, sym, ◌∙◌,
}
use coven_github.Config.{
  Config, InstallationConfig, PlanTier, concurrency_caps, or_else, put, put_cap, tier_limits,
  tier_of, collect_caps, effective_limits, installation_of, limits_for, limits_of, limits_or,
}

abbrev pub tier_cap : String → Option ℕ
tier_cap tier = (tier_limits (tier_of tier)).max_concurrent

-- One tier of the loop: the entry is vacant, and the tier has a cap.
unfoldable pub add_tier_cap : ℕ → String → Caps → Caps
add_tier_cap i tier caps = elim (cap_of i caps) [
  | some cap ↦ caps
  | none ↦ elim (tier_cap tier) [ none ↦ caps | some cap ↦ (i, cap) ∷ caps ]
]

unfoldable pub add_tier_caps : List (ℕ × String) → Caps → Caps
unfolding add_tier_cap
add_tier_caps [] caps = caps
add_tier_caps ((i, tier) ∷ tiers) caps = add_tier_caps tiers (add_tier_cap i tier caps)

unfoldable pub claim_caps : Config → List (ℕ × String) → Caps
unfolding add_tier_caps
claim_caps cfg tiers = add_tier_caps tiers (concurrency_caps cfg)

abbrev pub tier_among : ℕ → List (ℕ × String) → Option PlanTier
tier_among i [] = none
tier_among i ((j, tier) ∷ tiers) = if j == i then some (tier_of tier) else tier_among i tiers

cap_of-put :
    (i j n : ℕ) (caps : Caps) → cap_of i (put j n caps) ≡ (if j == i then some n else cap_of i caps)
unfolding cap_of put
cap_of-put i j n [] = ground arith
cap_of-put i j n ((k, m) ∷ caps) = ground (arith, cap_of-put i j n caps)

cap_of-put_cap :
    (i : ℕ) (x : InstallationConfig) (caps : Caps)
    → cap_of i (put_cap x caps)
      ≡ (if x.id == i then or_else x.limits.max_concurrent (cap_of i caps) else cap_of i caps)
unfolding put
cap_of-put_cap i x caps = elim (Option-cases x.limits.max_concurrent) [
  | inl q ↦ rw q (ground arith)
  | inr (cap, q) ↦ rw q (cap_of-put i x.id cap caps)
]

find-none :
    (i : ℕ) (xs : List InstallationConfig)
    → any (λ (y : InstallationConfig). y.id == i) xs ≡ false
    → installation_of i xs ≡ none
find-none i [] h = refl
find-none i (y ∷ ys) h = ground (arith, h, find-none i ys)

cap_of-collect_caps :
    (i : ℕ) (xs : List InstallationConfig) (caps : Caps)
    → Distinct (λ (x : InstallationConfig). x.id) xs
    → cap_of i (collect_caps xs caps)
      ≡ or_else (limits_or (installation_of i xs)).max_concurrent (cap_of i caps)
unfolding collect_caps
cap_of-collect_caps i [] caps d = refl
cap_of-collect_caps i (x ∷ xs) caps d =
    cap_of-collect_caps i xs (put_cap x caps) d.1 ∙ elim (Bool-cases (x.id == i)) [
      | inr q ↦ rw (cap_of-put_cap i x caps, q) refl
      | inl q ↦
          let alone = find-none i xs (
            subst (λ (k : ℕ). any (λ (y : InstallationConfig). y.id == k) xs ≡ false)
              (eq_of_== _ _ q) d.0) in
          rw (cap_of-put_cap i x caps, alone, q) refl
    ]

or_else-none : (o : Option ℕ) → or_else o none ≡ o
or_else-none none = refl
or_else-none (some n) = refl

cap_of-add_tier_cap :
    (i j : ℕ) (tier : String) (caps : Caps)
    → cap_of i (add_tier_cap j tier caps)
      ≡ (if j == i then or_else (cap_of i caps) (tier_cap tier) else cap_of i caps)
unfolding add_tier_cap cap_of
cap_of-add_tier_cap i j tier caps = elim (Bool-cases (j == i)) [
  | inl same ↦
      let here : cap_of j caps ≡ cap_of i caps = ap (λ k. cap_of k caps) (eq_of_== _ _ same) in
      elim (Option-cases (cap_of i caps)) [
        | inr (cap, q) ↦ rw (add_tier_cap, here, q, same) q
        | inl q ↦ elim (Option-cases (tier_cap tier)) [
          | inl t ↦ rw (add_tier_cap, here, q, t, same) q
          | inr (cap, t) ↦ rw (add_tier_cap, here, q, t, same) refl
        ]
      ]
  | inr other ↦ elim (Option-cases (cap_of j caps)) [
    | inr (cap, q) ↦ rw (add_tier_cap, q, other) refl
    | inl q ↦ elim (Option-cases (tier_cap tier)) [
      | inl t ↦ rw (add_tier_cap, q, t, other) refl
      | inr (cap, t) ↦ rw (add_tier_cap, q, t, other) refl
    ]
  ]
]

tier_among-none :
    (i : ℕ) (tiers : List (ℕ × String))
    → any (λ (t : ℕ × String). t.0 == i) tiers ≡ false
    → tier_among i tiers ≡ none
tier_among-none i [] h = refl
tier_among-none i ((j, tier) ∷ tiers) h = ground (arith, h, tier_among-none i tiers)

cap_of-add_tier_caps :
    (i : ℕ) (tiers : List (ℕ × String)) (caps : Caps)
    → Distinct (λ (t : ℕ × String). t.0) tiers
    → cap_of i (add_tier_caps tiers caps)
      ≡ or_else (cap_of i caps) (limits_of (tier_among i tiers)).max_concurrent
unfolding add_tier_caps
cap_of-add_tier_caps i [] caps d = sym (or_else-none (cap_of i caps))
cap_of-add_tier_caps i ((j, tier) ∷ tiers) caps d =
    cap_of-add_tier_caps i tiers (add_tier_cap j tier caps) d.1 ∙ elim (Bool-cases (j == i)) [
      | inr q ↦ rw (cap_of-add_tier_cap i j tier caps, q) refl
      | inl q ↦
          let alone = tier_among-none i tiers (
            subst (λ (k : ℕ). any (λ (t : ℕ × String). t.0 == k) tiers ≡ false) (eq_of_== _ _ q)
              d.0) in
          rw (cap_of-add_tier_cap i j tier caps, alone, q) (or_else-none _)
    ]

-- The cap that a claim enforces for an installation is the effective one: its own where the
-- configuration sets one, else its plan's, else none. Neither the configured installations nor the
-- plans name an installation twice.
pub cap_of-claim_caps :
    (cfg : Config) (tiers : List (ℕ × String)) (i : ℕ)
    → Distinct (λ (x : InstallationConfig). x.id) cfg.installations
    → Distinct (λ (t : ℕ × String). t.0) tiers
    → cap_of i (claim_caps cfg tiers)
      ≡ (effective_limits (limits_for cfg i) (tier_among i tiers)).max_concurrent
unfolding claim_caps concurrency_caps effective_limits limits_for cap_of
cap_of-claim_caps cfg tiers i d e =
    cap_of-add_tier_caps i tiers (concurrency_caps cfg) e
    ∙ ap (λ o. or_else o (limits_of (tier_among i tiers)).max_concurrent)
        (cap_of-collect_caps i cfg.installations [] d ∙ or_else-none _)
