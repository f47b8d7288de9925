-- ===== src/Worker/Redact.antt =====
-- The redaction of tokens: `redact` of crates/worker/src/redact.rs.
pub mod Report
use Prim.Native.String.{len, count}
use coven_github.Base.{
  is_white_space, ℕ, Bool, List, String, [], any, code, contains_text, if◌then◌else◌,
  is_ascii_alphanumeric, is_empty_text, leb, nat_Eq, nat_eq, none, not, some, strip_prefix, suc,
  text_Eq, zero, ◌&&◌, ◌<>◌, ◌||◌, ◌∷◌,
}

abbrev redacted : String
redacted = "[redacted-token]"

abbrev pub prefixes : List String
prefixes = "ghs_" ∷ "ghp_" ∷ "gho_" ∷ "ghu_" ∷ "ghr_" ∷ "github_pat_" ∷ []

abbrev min_token_body : ℕ
min_token_body = 20

unfoldable pub token_char : ℕ → Bool
token_char c = is_ascii_alphanumeric c || nat_eq c b'_'

-- The characters in front that pass the test, and the rest.
unfoldable pub span_where : (ℕ → Bool) → String → String × String
span_where p String.[] = ("", "")
span_where p (String.◌∷◌ c s) =
    let (body, rest) = span_where p s in
    if p (code c) then (String.◌∷◌ c body, rest) else ("", String.◌∷◌ c s)

-- `replace` of a text that is not empty: each round takes off a character at least.
replace_from : ℕ → String → String → String → String
replace_from zero token by s = s
replace_from (suc fuel) token by String.[] = ""
replace_from (suc fuel) token by (String.◌∷◌ c s) =
    let moved = String.◌∷◌ c (replace_from fuel token by s) in
    elim (strip_prefix token (String.◌∷◌ c s)) [
      | none ↦ moved
      | some rest ↦ by <> replace_from fuel token by rest
    ]

unfoldable pub replace_text : String → String → String → String
unfolding replace_from strip_prefix
replace_text token by s = replace_from (count s) token by s

-- A body that is long enough goes with its prefix; a shorter one is scanned again.
pattern_from : ℕ → String → (ℕ → Bool) → ℕ → String → String
pattern_from zero prefix p min_body s = s
pattern_from (suc fuel) prefix p min_body String.[] = ""
pattern_from (suc fuel) prefix p min_body (String.◌∷◌ c s) =
    let moved = String.◌∷◌ c (pattern_from fuel prefix p min_body s) in
    elim (strip_prefix prefix (String.◌∷◌ c s)) [
      | none ↦ moved
      | some after ↦
          let (body, rest) = span_where p after in
          if leb min_body (len body)
          then redacted <> pattern_from fuel prefix p min_body rest
          else prefix <> pattern_from fuel prefix p min_body after
    ]

unfoldable pub redact_pattern : String → String → (ℕ → Bool) → ℕ → String
unfolding pattern_from span_where strip_prefix
redact_pattern text prefix p min_body = pattern_from (count text) prefix p min_body text

unfoldable pub redact_live : String → List String → String
unfolding replace_text
redact_live text [] = text
redact_live text (token ∷ tokens) =
    redact_live (if is_empty_text token then text else replace_text token redacted text) tokens

unfoldable pub redact_prefixes : String → List String → String
unfolding redact_pattern token_char
redact_prefixes text [] = text
redact_prefixes text (prefix ∷ more) =
    redact_prefixes (redact_pattern text prefix token_char min_token_body) more

abbrev pub userinfo_char : ℕ → Bool
userinfo_char c = not (nat_eq c b'@') && not (nat_eq c b'"') && not (is_white_space c)

unfoldable pub redact : String → List String → String
unfolding redact_live redact_pattern redact_prefixes
redact text live_tokens =
    redact_prefixes
      (redact_pattern (redact_live text live_tokens) "x-access-token:" userinfo_char 1) prefixes

unfoldable pub contains_live_token : String → List String → Bool
unfolding contains_text
contains_live_token text live_tokens =
    any (λ (token : String). not (is_empty_text token) && contains_text token text) live_tokens
