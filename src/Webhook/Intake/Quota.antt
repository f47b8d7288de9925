-- ===== src/Webhook/Intake/Quota.antt =====
-- The tasks of the day, which the daily cap counts (crates/webhook/src/routes.rs).
use coven_github.Store.Validity.Recording.{tombstone_cases}
use coven_github.Webhook.Intake.Handler.{enqueued}
use coven_github.Store.Deliveries.{tombstoned, queued_for, tombstone_older}
use coven_github.GitHub.{Task}
use coven_github.Store.Schema.{err, ok, TaskRow, Result, Recorded, Db}
use coven_github.Base.{
  ℕ, Bool, List, [], arith, count_where, inl, inr, leb, nat_Eq, refl, text_Eq, update_where, ◌&&◌,
  ◌==◌, ◌∷◌, ◌≡◌,
}

-- Tombstones change no count of the tasks created.
count_where-update_where {ℓ} :
    {A : Type ℓ} (q p : A → Bool) (f : A → A) (xs : List A)
    → ((x : A) → q (f x) ≡ q x)
    → count_where q (update_where p f xs) ≡ count_where q xs
unfolding count_where update_where
count_where-update_where q p f [] same = refl
count_where-update_where q p f (x ∷ xs) same =
    ground (arith, same x, count_where-update_where q p f xs same)

abbrev pub created_since : ℕ → ℕ → TaskRow → Bool
created_since i cutoff t = t.installation_id == i && leb cutoff t.created_at

pub created-tombstone_older :
    (now : ℕ) (t : Task) (rows : List TaskRow) (i cutoff : ℕ)
    → count_where (created_since i cutoff) (tombstone_older now t rows)
      ≡ count_where (created_since i cutoff) rows
created-tombstone_older now t rows i cutoff = elim (tombstone_cases now t rows) [
  | inl e ↦ rw e
  | inr (key, e) ↦ rw e (
      count_where-update_where (created_since i cutoff) (queued_for key) (tombstoned now) rows
        (λ r. refl))
]

pub enqueued-tables : (r : Result Recorded × Db) → (enqueued r).db ≡ r.1
enqueued-tables (ok Recorded.new, db) = refl
enqueued-tables (ok Recorded.duplicate, db) = refl
enqueued-tables (err e, db) = refl
