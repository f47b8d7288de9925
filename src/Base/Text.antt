-- ===== src/Base/Text.antt =====
-- Texts: decimal numbers and the standard library's functions on `str` that the program uses.
use Prim.Native.Nat.{ℕ, zero, suc, ◌/◌, ◌%◌}
use Prim.Native.Char.{code}
use Prim.Native.String.{String, ◌++◌}
use mathlib.Core.Bool.{Bool, true, false, ◌&&◌, ◌||◌}
use mathlib.Core.Option.{Option, none, some}
use mathlib.Core.List.{List}
use coven_github.Base.Tests.{if◌then◌else◌, ltb, nat_eq, ◌==◌, text_Eq, nat_Eq, leb}
use coven_github.Base.Lists.{any}

digit : ℕ → String
digit zero = "0"
digit (suc zero) = "1"
digit (suc (suc zero)) = "2"
digit (suc (suc (suc zero))) = "3"
digit (suc (suc (suc (suc zero)))) = "4"
digit (suc (suc (suc (suc (suc zero))))) = "5"
digit (suc (suc (suc (suc (suc (suc zero)))))) = "6"
digit (suc (suc (suc (suc (suc (suc (suc zero))))))) = "7"
digit (suc (suc (suc (suc (suc (suc (suc (suc zero)))))))) = "8"
digit _ = "9"

decimal_from : ℕ → ℕ → String
decimal_from zero n = ""
decimal_from (suc fuel) n =
    let more = decimal_from fuel (n / 10) ++ digit (n % 10) in if ltb n 10 then digit n else more

-- The decimal digits of a number, as `{}` prints it: one round of fuel for each digit, of which
-- there are never more than the number's value and one.
unfoldable pub decimal : ℕ → String
unfolding digit decimal_from
decimal n = decimal_from (suc n) n

-- `split_once` at one character.
unfoldable pub split_once : ℕ → String → Option (String × String)
split_once sep String.[] = none
split_once sep (String.◌∷◌ c s) =
    if nat_eq (code c) sep
    then some (String.[], s)
    else elim (split_once sep s) [ none ↦ none | some (a, b) ↦ some (String.◌∷◌ c a, b) ]

-- No character of the text is `sep`.
unfoldable pub lacks : ℕ → String → Bool
lacks sep String.[] = true
lacks sep (String.◌∷◌ c s) = if nat_eq (code c) sep then false else lacks sep s

-- The list's `contains`.
abbrev pub contains : String → List String → Bool
contains x xs = any (λ (y : String). y == x) xs

-- The prefix comes first.
unfoldable pub starts_with : String → String → Bool
starts_with String.[] s = true
starts_with (String.◌∷◌ c p) String.[] = false
starts_with (String.◌∷◌ c p) (String.◌∷◌ d s) = nat_eq (code c) (code d) && starts_with p s

abbrev pub is_empty_text : String → Bool
is_empty_text String.[] = true
is_empty_text (String.◌∷◌ c s) = false

-- `strip_suffix` of one character.
unfoldable pub strip_suffix : ℕ → String → Option String
strip_suffix sep String.[] = none
strip_suffix sep (String.◌∷◌ c s) = elim (strip_suffix sep s) [
  | some p ↦ some (String.◌∷◌ c p)
  | none ↦ if is_empty_text s && nat_eq (code c) sep then some String.[] else none
]

-- The suffix comes first.
unfoldable pub ends_with : String → String → Bool
ends_with suffix String.[] = suffix == ""
ends_with suffix (String.◌∷◌ c s) = suffix == String.◌∷◌ c s || ends_with suffix s

-- The characters of the Unicode property White_Space, which `trim` takes off.
abbrev pub is_white_space : ℕ → Bool
is_white_space c =
    (leb 9 c && leb c 13)
    || nat_eq c 32
    || nat_eq c 133
    || nat_eq c 160
    || nat_eq c 5760
    || (leb 8192 c && leb c 8202)
    || nat_eq c 8232
    || nat_eq c 8233
    || nat_eq c 8239
    || nat_eq c 8287
    || nat_eq c 12288

-- The text is empty when it is trimmed.
unfoldable pub is_blank : String → Bool
is_blank String.[] = true
is_blank (String.◌∷◌ c s) = is_white_space (code c) && is_blank s
