-- ===== src/Webhook/Commands/Mentions.antt =====
-- Where a comment mentions a familiar, and what makes it a command (crates/webhook/src/commands.rs).
use mathlib.Core.Bool.{false≢true}
use mathlib.Core.Option.{some-injective}
use coven_github.Webhook.Commands.{
  boundary_after, mentions_from, mention_here, boundary_before, handle_of, mentions, needle_of,
}
use text.Mathlib.TextLemmas.{nil-append, cons-append}
use text.Mathlib.TextEquality.{Char-path}
use coven_github.Base.{
  ℕ, Bool, Bool-cases, Option, Option-cases, String, and-eq-true, ap, code, head_code, inl, inr,
  nat_eq, nat_eq_refl, nat_eq_sound, refl, some, strip_prefix, sym, true, ◌<>◌, ◌∙◌, ◌≡◌, arith,
  false, is_empty_text, none, ◌↔◌,
}

pub strip_prefix-append : (p r : String) → strip_prefix p (p <> r) ≡ some r
unfolding strip_prefix
strip_prefix-append String.[] r = rw nil-append refl
strip_prefix-append (String.◌∷◌ c p) r =
    rw cons-append (rw (nat_eq_refl (code c)) (strip_prefix-append p r))

pub strip_prefix-eq-some : (p s : String) {r : String} → strip_prefix p s ≡ some r → s ≡ p <> r
unfolding strip_prefix
strip_prefix-eq-some String.[] s h = some-injective _ _ h ∙ sym (nil-append _)
strip_prefix-eq-some (String.◌∷◌ c p) String.[] h = cc
strip_prefix-eq-some (String.◌∷◌ c p) (String.◌∷◌ d s) {r} h =
    elim (Bool-cases (nat_eq (code c) (code d))) [
      | inr e ↦ cc (rw e at h)
      | inl e ↦
          let same = Char-path c d (nat_eq_sound _ _ e) in
          ap (λ x. String.◌∷◌ x s) (sym same)
          ∙ ap (String.◌∷◌ c) (strip_prefix-eq-some p s (rw e at h))
          ∙ sym (cons-append _ _ _)
    ]

-- The character before the text's end, where `before` comes before the text.
abbrev pub last_code : Option ℕ → String → Option ℕ
last_code before String.[] = before
last_code before (String.◌∷◌ c s) = last_code (some (code c)) s

module _ (beyond : ℕ → Bool) where
  -- The text holds the needle between a boundary before and a boundary after it.
  abbrev pub MentionedAt : Option ℕ → String → String → Type 0
  MentionedAt before needle s =
      (pre : String) × (rest : String) × (s ≡ pre <> (needle <> rest))
      × (boundary_before beyond (last_code before pre) ≡ true)
      × (boundary_after beyond (head_code rest) ≡ true)

  here_sound :
      (needle : String) (before : Option ℕ) (s : String)
      → mention_here beyond needle before s ≡ true
      → MentionedAt before needle s
  unfolding mention_here
  here_sound needle before s h = elim (Option-cases (strip_prefix needle s)) [
    | inl e ↦ absurd (false≢true (rw (e, mention_here) at h))
    | inr (rest, e) ↦
        let (ahead, behind) = and-eq-true _ _ (rw (e, mention_here) at h) in
        ("", rest, strip_prefix-eq-some needle s e ∙ sym (nil-append _), ahead, behind)
  ]

  mentions_from_sound :
      (needle : String) (before : Option ℕ) (s : String)
      → mentions_from beyond needle before s ≡ true
      → MentionedAt before needle s
  unfolding mentions_from
  mentions_from_sound needle before String.[] h = absurd (false≢true h)
  mentions_from_sound needle before (String.◌∷◌ c s) h =
      elim (Bool-cases (mention_here beyond needle before (String.◌∷◌ c s))) [
        | inl e ↦ here_sound needle before (String.◌∷◌ c s) e
        | inr e ↦
            let (pre, rest, at, ahead, behind) =
              mentions_from_sound needle (some (code c)) s (rw e at h) in
            (String.◌∷◌ c pre, rest, ap (String.◌∷◌ c) at ∙ sym (cons-append _ _ _), ahead, behind)
      ]

  here_complete :
      (needle : String) (before : Option ℕ) (rest : String)
      → boundary_before beyond before ≡ true
      → boundary_after beyond (head_code rest) ≡ true
      → mention_here beyond needle before (needle <> rest) ≡ true
  unfolding mention_here
  here_complete needle before rest ahead behind =
      rw (strip_prefix-append needle rest, mention_here) (ground (arith, ahead, behind))

  mentions_from-here :
      (needle : String) (before : Option ℕ) (s : String)
      → strip_prefix needle "" ≡ none
      → mention_here beyond needle before s ≡ true
      → mentions_from beyond needle before s ≡ true
  unfolding mentions_from mention_here
  mentions_from-here needle before String.[] filled h =
      absurd (false≢true (rw (filled, mention_here) at h))
  mentions_from-here needle before (String.◌∷◌ c s) filled h = rw (h, mentions_from) refl

  mentions_from_complete :
      (needle : String) (before : Option ℕ) (pre rest : String)
      → strip_prefix needle "" ≡ none
      → boundary_before beyond (last_code before pre) ≡ true
      → boundary_after beyond (head_code rest) ≡ true
      → mentions_from beyond needle before (pre <> (needle <> rest)) ≡ true
  unfolding mentions_from
  mentions_from_complete needle before String.[] rest filled ahead behind = rw nil-append (
      mentions_from-here needle before (needle <> rest) filled
        (here_complete needle before rest ahead behind))
  mentions_from_complete needle before (String.◌∷◌ c pre) rest filled ahead behind =
      rw cons-append
        (ground (arith, mentions_from_complete needle (some (code c)) pre rest filled ahead behind))

needle-filled : (handle : String) → strip_prefix (needle_of handle) "" ≡ none
unfolding needle_of strip_prefix
needle-filled handle = rw cons-append refl

-- A comment mentions a familiar just if its handle is not empty and stands in the comment after an
-- `@`, with the start, or no letter, digit or `@`, before it, and the end, or nothing that
-- continues an identifier or a path, behind it.
pub mentions_lem :
    (beyond : ℕ → Bool) (body bot_username : String)
    → (mentions beyond body bot_username ≡ true) ↔ (
        (is_empty_text (handle_of bot_username) ≡ false)
        × MentionedAt beyond none (needle_of (handle_of bot_username)) body)
unfolding mentions
mentions_lem beyond body bot_username =
    let handle = handle_of bot_username in
    elim (Bool-cases (is_empty_text handle)) [
      | inl e ↦ (
        λ h. absurd (false≢true (rw (e, mentions) at h)),
        λ (filled, at). absurd (false≢true (sym filled ∙ e)),
      )
      | inr e ↦ (
        λ h. (e, mentions_from_sound beyond (needle_of handle) none body (rw (e, mentions) at h)),
        λ (filled, (pre, rest, at, ahead, behind)).
            rw (e, at, mentions)
              (mentions_from_complete beyond (needle_of handle) none pre rest (needle-filled handle)
                ahead behind),
      )
    ]
