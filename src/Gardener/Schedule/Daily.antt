-- ===== src/Gardener/Schedule/Daily.antt =====
-- A schedule is due once a day (crates/gardener/src/schedule.rs).
use coven_github.Gardener.Schedule.{
  slot_name, scheduled_minute, slot_id, parse_schedule, parse_fields, parse_field, Schedule,
}
use coven_github.Base.{
  ℕ, AllSome, AllSome->>=, AllSome-if, List, String, [], arith, keep_if-eq-some, leb, ltb, nat_Eq,
  none, of_AllSome, parse_u64, some, split_whitespace, text_Eq, ◌&&◌, ◌*◌, ◌+◌, ◌/◌, ◌==◌, ◌∷◌, ◌≡◌,
  ◌≢◌, ◌≤◌, ==_refl, Bool-cases, eq_of_==, inl, inr, refl, ◌%◌,
}

abbrev pub InDay : Schedule → Type 0
InDay s = (s.minute ≤ 59) × (s.hour ≤ 23)

parse_field-le : (field : String) (max n : ℕ) → parse_field field max ≡ some n → n ≤ max
unfolding parse_field
parse_field-le field max n h =
    ground (arith, keep_if-eq-some (λ (n : ℕ). ltb n 256 && leb n max) (parse_u64 field) h)

parse_fields-InDay : (fields : List String) → AllSome InDay (parse_fields fields)
parse_fields-InDay [] = tt
parse_fields-InDay (a ∷ []) = tt
parse_fields-InDay (a ∷ b ∷ []) = tt
parse_fields-InDay (a ∷ b ∷ c ∷ []) = tt
parse_fields-InDay (a ∷ b ∷ c ∷ d ∷ []) = tt
parse_fields-InDay (m ∷ h ∷ day ∷ month ∷ weekday ∷ []) =
    AllSome-if InDay (day == "*" && month == "*" && weekday == "*") _ _
      (AllSome->>= InDay (parse_field m 59) _ (λ minute p.
        AllSome->>= InDay (parse_field h 23) _
          (λ hour q. (parse_field-le m 59 minute p, parse_field-le h 23 hour q))))
      tt
parse_fields-InDay (a ∷ b ∷ c ∷ d ∷ e ∷ f ∷ more) = tt

module _ (s : Schedule) (day : ℕ) (inside : InDay s) where
  remainder : (day * 1440 + scheduled_minute s) % 1440 ≡ scheduled_minute s
  unfolding scheduled_minute
  remainder = omega (arith, inside.0, inside.1)

  quotient : (day * 1440 + scheduled_minute s) / 1440 ≡ day
  unfolding scheduled_minute
  quotient = omega (arith, inside.0, inside.1)

  due_at : slot_id s (day * 1440 + scheduled_minute s) ≡ some (slot_name s day)
  unfolding slot_id
  due_at = rw (remainder, quotient, ==_refl (scheduled_minute s), slot_id) refl

  due_only :
      (minutes : ℕ)
      → minutes / 1440 ≡ day
      → slot_id s minutes ≢ none
      → minutes ≡ day * 1440 + scheduled_minute s
  unfolding slot_id
  due_only minutes same due = elim (Bool-cases (minutes % 1440 == scheduled_minute s)) [
    | inl e ↦ omega (arith, same, eq_of_== (minutes % 1440) (scheduled_minute s) e)
    | inr e ↦ absurd (due (rw (e, slot_id) refl))
  ]

-- A schedule that parses names a minute of the day; on every day it has a slot at exactly this
-- minute, which is named by the day.
pub parse_schedule-daily :
    (input : String) (s : Schedule) (day minutes : ℕ)
    → parse_schedule input ≡ some s
    → (slot_id s (day * 1440 + scheduled_minute s) ≡ some (slot_name s day))
      × (minutes / 1440 ≡ day
          → slot_id s minutes ≢ none
          → minutes ≡ day * 1440 + scheduled_minute s)
unfolding parse_schedule
parse_schedule-daily input s day minutes h =
    let inside = of_AllSome InDay _ (parse_fields-InDay (split_whitespace input)) h in
    (due_at s day inside, due_only s day inside minutes)
