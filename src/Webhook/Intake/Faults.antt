-- ===== src/Webhook/Intake/Faults.antt =====
-- A store whose calls may fail, and the events that touch it before their record
-- (crates/webhook/src/routes.rs).
use coven_github.Store.Billing.{record_installation_account}
use coven_github.Webhook.Payload.{is_action}
use coven_github.Webhook.Intake.Parts.{either}
use coven_github.Webhook.Intake.Handler.{note_account, noted}
use coven_github.Store.Schema.{Db}
use coven_github.Webhook.Intake.{Arrival, Wire, Call, note_call}
use coven_github.Base.{
  ℕ, Bool-cases, Option-cases, false, inl, inr, nat_Eq, refl, text_Eq, ◌≡◌, Bool, not, ◌&&◌, ◌==◌,
  ap,
}

-- No call of the store fails.
abbrev pub AllUp : Wire → Type 0
AllUp wire = (c : Call) → wire.fails c ≡ false

abbrev pub is_uninstall : Arrival → Bool
is_uninstall a = a.event_type == "installation" && is_action a.payload "deleted"

pub note_account-Unmoved :
    (now : ℕ) (db : Db) (a : Arrival)
    → note_account now db a ≡ record db { accounts = (note_account now db a).accounts }
unfolding note_account record_installation_account
note_account-Unmoved now db a =
    elim (Bool-cases (a.event_type == "installation" && not (is_action a.payload "deleted"))) [
      | inr e ↦ rw e refl
      | inl e ↦ elim (Option-cases a.payload.installation) [
        | inl i ↦ rw (e, i) refl
        | inr (inst, i) ↦ elim (Option-cases inst.account) [
          | inl c ↦ rw (e, i, c) refl
          | inr (account, c) ↦ rw (e, i, c) refl
        ]
      ]
    ]

pub noted-Unmoved :
    (fails : Call → Bool) (now : ℕ) (db : Db) (a : Arrival)
    → noted fails now db a ≡ record db { accounts = (noted fails now db a).accounts }
unfolding noted
noted-Unmoved fails now db a =
    either (λ (x : Db). x ≡ record db { accounts = x.accounts }) (fails note_call) db
      (note_account now db a) refl (note_account-Unmoved now db a)

pub noted-tasks :
    (fails : Call → Bool) (now : ℕ) (db : Db) (a : Arrival)
    → (noted fails now db a).tasks ≡ db.tasks
noted-tasks fails now db a = ap (λ (x : Db). x.tasks) (noted-Unmoved fails now db a)
