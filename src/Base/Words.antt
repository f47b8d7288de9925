-- ===== src/Base/Words.antt =====
-- More functions of the standard library on `str`: trimming, prefixes, letters and numbers.
use Prim.Native.Nat.{ℕ, zero, suc, ◌+◌, ◌-◌, ◌*◌, ◌^◌}
use Prim.Native.Char.{Char, code}
use Prim.Native.String.{String, count}
use mathlib.Core.Bool.{Bool, ◌&&◌, ◌||◌, not}
use mathlib.Core.Option.{Option, none, some}
use mathlib.Core.List.{List, [], ◌∷◌}
use coven_github.Base.Tests.{if◌then◌else◌, ltb, leb, nat_eq, ◌==◌, text_Eq, nat_Eq}
use coven_github.Base.Text.{is_white_space, is_empty_text, starts_with}

unfoldable pub trim_start : String → String
trim_start String.[] = ""
trim_start (String.◌∷◌ c s) = if is_white_space (code c) then trim_start s else String.◌∷◌ c s

-- `trim_end_matches` of the characters that pass a test
unfoldable pub trim_end_where : (ℕ → Bool) → String → String
trim_end_where p String.[] = ""
trim_end_where p (String.◌∷◌ c s) =
    let rest = trim_end_where p s in
    if is_empty_text rest && p (code c) then "" else String.◌∷◌ c rest

unfoldable pub trim : String → String
unfolding trim_start trim_end_where
trim s = trim_end_where is_white_space (trim_start s)

unfoldable pub strip_prefix : String → String → Option String
strip_prefix String.[] s = some s
strip_prefix (String.◌∷◌ c p) String.[] = none
strip_prefix (String.◌∷◌ c p) (String.◌∷◌ d s) =
    if nat_eq (code c) (code d) then strip_prefix p s else none

unfoldable pub strip_suffix_text : String → String → Option String
strip_suffix_text suffix String.[] = if suffix == "" then some "" else none
strip_suffix_text suffix (String.◌∷◌ c s) =
    if suffix == String.◌∷◌ c s
    then some ""
    else elim (strip_suffix_text suffix s) [ none ↦ none | some p ↦ some (String.◌∷◌ c p) ]

trim_end_from : ℕ → String → String → String
trim_end_from zero suffix s = s
trim_end_from (suc fuel) suffix s = elim (strip_suffix_text suffix s) [
  | none ↦ s
  | some p ↦ trim_end_from fuel suffix p
]

-- `trim_end_matches` of a text that is not empty: it can be stripped at most as often as the text
-- has characters, which is the fuel.
unfoldable pub trim_end_matches : String → String → String
unfolding trim_end_from strip_suffix_text
trim_end_matches suffix s = trim_end_from (count s) suffix s

-- The text up to the first character that passes the test, and what comes after that character.
unfoldable pub split_where : (ℕ → Bool) → String → String × Option String
split_where p String.[] = ("", none)
split_where p (String.◌∷◌ c s) =
    let (word, rest) = split_where p s in
    if p (code c) then ("", some s) else (String.◌∷◌ c word, rest)

-- `contains` of a text
unfoldable pub contains_text : String → String → Bool
contains_text needle String.[] = needle == ""
contains_text needle (String.◌∷◌ c s) =
    starts_with needle (String.◌∷◌ c s) || contains_text needle s

-- The letter at the place of `c` in the first text, taken from the second.
lower_in : String → String → Char → Char
lower_in (String.◌∷◌ u us) (String.◌∷◌ l ls) c =
    if nat_eq (code u) (code c) then l else lower_in us ls c
lower_in _ _ c = c

unfoldable pub to_ascii_lowercase : String → String
unfolding lower_in
to_ascii_lowercase String.[] = ""
to_ascii_lowercase (String.◌∷◌ c s) =
    String.◌∷◌ (lower_in "ABCDEFGHIJKLMNOPQRSTUVWXYZ" "abcdefghijklmnopqrstuvwxyz" c)
      (to_ascii_lowercase s)

abbrev is_digit : ℕ → Bool
is_digit c = leb b'0' c && leb c b'9'

digits_from : ℕ → String → Option ℕ
digits_from n String.[] = some n
digits_from n (String.◌∷◌ c s) =
    let m = n * 10 + (code c - b'0') in
    if is_digit (code c) && ltb m (2 ^ 64) then digits_from m s else none

-- `parse::<u64>()`: digits, with a `+` before them or not, of a number that fits.
unfoldable pub parse_u64 : String → Option ℕ
unfolding digits_from
parse_u64 String.[] = none
parse_u64 (String.◌∷◌ c s) =
    if nat_eq (code c) b'+' && not (is_empty_text s)
    then digits_from 0 s
    else digits_from 0 (String.◌∷◌ c s)

-- The first character's code.
abbrev pub head_code : String → Option ℕ
head_code String.[] = none
head_code (String.◌∷◌ c s) = some (code c)

abbrev push_word : String → List String → List String
push_word String.[] words = words
push_word (String.◌∷◌ c w) words = String.◌∷◌ c w ∷ words

-- The text's first word, empty where the text starts with white space, and the words after it.
words_from : String → String × List String
words_from String.[] = ("", [])
words_from (String.◌∷◌ c s) =
    let (word, words) = words_from s in
    if is_white_space (code c) then ("", push_word word words) else (String.◌∷◌ c word, words)

unfoldable pub split_whitespace : String → List String
unfolding words_from
split_whitespace s = let (word, words) = words_from s in push_word word words

-- `char::is_ascii_alphanumeric`
abbrev pub is_ascii_alphanumeric : ℕ → Bool
is_ascii_alphanumeric c =
    (leb b'0' c && leb c b'9') || (leb b'A' c && leb c b'Z') || (leb b'a' c && leb c b'z')
