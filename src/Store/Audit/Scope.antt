-- ===== src/Store/Audit/Scope.antt =====
-- A tenant's audit stream shows its own events only (crates/store/src/lib.rs).
use coven_github.Store.Retention.{is_number}
use coven_github.Store.Audit.{
  has_pr, pr_event, later, joins, is_ignored, event_visible, ignored_event, event_in_repos,
  attempt_event, audit_events, attempt_events, all_events, AuditEvent,
}
use coven_github.Store.Memory.{ApiScope}
use coven_github.Base.{
  ℕ, All, All-select_where, All-sort_by, All_mem, List, Memᴰ, Option, [], and-eq-true, ap, arith,
  eq_of_==, inl, inr, length, map, nat_Eq, none, refl, select_where, some, sort_by, suc, take,
  text_Eq, true, zero, ◌++◌, ◌∷◌, ◌≡◌, ◌≤◌, ◌⊎◌,
}
use coven_github.Store.Schema.{Db, AttemptRow, DeliveryRow, TaskRow}

-- The event is of a delivery or a task of the scope's installation.
abbrev pub Traced : Db → ApiScope → AuditEvent → Type 0
Traced db s e =
    ((d : DeliveryRow) × Memᴰ d db.deliveries
      × (d.installation_id ≡ some s.installation_id)
      × (e.repo ≡ d.repo))
    ⊎ ((t : TaskRow) × Memᴰ t db.tasks
        × (t.installation_id ≡ s.installation_id)
        × (e.task_id ≡ some t.id)
        × (e.repo ≡ some t.repo))

pub All-append {ℓ κ} :
    {A : Type ℓ} (P : A → Type κ) (xs ys : List A) → All P xs → All P ys → All P (xs ++ ys)
All-append P [] ys h k = k
All-append P (x ∷ xs) ys h k = (h.0, All-append P xs ys h.1 k)

All-take {ℓ κ} : {A : Type ℓ} (P : A → Type κ) (n : ℕ) (xs : List A) → All P xs → All P (take n xs)
All-take P zero xs h = tt
All-take P (suc n) [] h = tt
All-take P (suc n) (x ∷ xs) h = (h.0, All-take P n xs h.1)

length-take_le {ℓ} : {A : Type ℓ} (n : ℕ) (xs : List A) → length (take n xs) ≤ n
length-take_le zero xs = omega arith
length-take_le (suc n) [] = omega arith
length-take_le (suc n) (x ∷ xs) = omega (arith, length-take_le n xs)

pub All-map_to {ℓ μ κ} :
    {A : Type ℓ} {B : Type μ} (P : B → Type κ) (f : A → B) (xs : List A)
    → All (λ x. P (f x)) xs
    → All P (map f xs)
All-map_to P f [] h = tt
All-map_to P f (x ∷ xs) h = (h.0, All-map_to P f xs h.1)

number_of : (o : Option ℕ) (i : ℕ) → is_number o i ≡ true → o ≡ some i
number_of none i h = cc
number_of (some j) i h = ap some (eq_of_== _ _ h)

module _ (db : Db) (s : ApiScope) where
  Traced-attempt_events :
      (attempts : List AttemptRow) → All (Traced db s) (attempt_events (some s) db.tasks attempts)
  unfolding attempt_events
  Traced-attempt_events [] = tt
  Traced-attempt_events (a ∷ attempts) =
      All-append (Traced db s) _ _
        (All-map_to (Traced db s) (λ (t : TaskRow). attempt_event t a)
          (select_where (joins (some s) a) db.tasks)
          (All-select_where {P = λ t. Memᴰ t db.tasks} (joins (some s) a) db.tasks
            (λ t m q.
              let (same, home) = and-eq-true _ _ q in
              inr (t, m, eq_of_== _ _ home, ap some (eq_of_== _ _ same), refl))
            (All_mem db.tasks)))
        (Traced-attempt_events attempts)

  Traced-all_events : All (Traced db s) (all_events db (some s))
  unfolding all_events
  Traced-all_events =
      All-append (Traced db s) _ _
        (All-map_to (Traced db s) ignored_event (select_where (is_ignored (some s)) db.deliveries) (
          All-select_where {P = λ d. Memᴰ d db.deliveries} (is_ignored (some s)) db.deliveries
            (λ d m q. inl (d, m, number_of _ _ (and-eq-true _ _ q).1, refl))
            (All_mem db.deliveries)))
        (All-append (Traced db s) _ _ (Traced-attempt_events db.attempts) (
          All-map_to (Traced db s) pr_event (select_where (has_pr (some s)) db.tasks) (
            All-select_where {P = λ t. Memᴰ t db.tasks} (has_pr (some s)) db.tasks
              (λ t m q. inr (t, m, eq_of_== _ _ (and-eq-true _ _ q).1, refl, refl))
              (All_mem db.tasks))))

-- A tenant's audit stream has at most as many events as the limit; each is of a delivery or a task
-- of its installation, and of a repository that its scope allows, if it names repositories.
pub audit_events-scoped :
    (db : Db) (s : ApiScope) (limit : ℕ)
    → (length (audit_events db (some s) limit) ≤ limit)
      × All
          (λ (e : AuditEvent). Traced db s e × (event_in_repos s.repos e.repo ≡ true))
          (audit_events db (some s) limit)
unfolding audit_events
audit_events-scoped db s limit = (
  length-take_le limit _,
  All-take _ limit _ (
      All-select_where {P = Traced db s} (event_visible (some s))
        (sort_by later (all_events db (some s))) (λ e t q. (t, q))
        (All-sort_by _ later (all_events db (some s)) (Traced-all_events db s))),
)
