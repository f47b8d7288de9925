-- ===== src/Gardener/Schedule.antt =====
-- The gardener's schedule: crates/gardener/src/schedule.rs. Minutes are counted from the epoch.
pub mod Daily
use coven_github.Base.{
  ℕ, List, Option, String, [], decimal, if◌then◌else◌, keep_if, leb, ltb, nat_Eq, none, parse_u64,
  some, split_whitespace, text_Eq, ◌%◌, ◌&&◌, ◌*◌, ◌+◌, ◌/◌, ◌<>◌, ◌==◌, ◌>>=◌, ◌∷◌,
}

pub record Schedule : Type 0 where
  pub minute : ℕ
  pub hour : ℕ

-- `parse::<u8>()` of a field, and its maximum
unfoldable pub parse_field : String → ℕ → Option ℕ
unfolding parse_u64
parse_field field max = keep_if (λ (n : ℕ). ltb n 256 && leb n max) (parse_u64 field)

abbrev pub parse_fields : List String → Option Schedule
parse_fields (m ∷ h ∷ day ∷ month ∷ weekday ∷ []) =
    if day == "*" && month == "*" && weekday == "*"
    then (parse_field m 59 >>= (λ (minute : ℕ).
        parse_field h 23 >>= (λ (hour : ℕ). some (record { minute = minute; hour = hour }))))
    else none
parse_fields _ = none

unfoldable pub parse_schedule : String → Option Schedule
unfolding parse_field split_whitespace
parse_schedule input = parse_fields (split_whitespace input)

-- `{:02}`
abbrev pub two_digits : ℕ → String
two_digits n = if ltb n 10 then "0" <> decimal n else decimal n

unfoldable pub scheduled_minute : Schedule → ℕ
scheduled_minute s = s.hour * 60 + s.minute

unfoldable pub slot_name : Schedule → ℕ → String
slot_name s day = decimal day <> "-" <> two_digits s.hour <> two_digits s.minute

unfoldable pub slot_id : Schedule → ℕ → Option String
unfolding scheduled_minute slot_name
slot_id s minutes =
    if minutes % 1440 == scheduled_minute s then some (slot_name s (minutes / 1440)) else none
