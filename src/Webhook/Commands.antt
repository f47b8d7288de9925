-- ===== src/Webhook/Commands.antt =====
-- The maintainers' command protocol: crates/webhook/src/commands.rs.
pub mod Mentions
use coven_github.Base.{
  ℕ, Bool, Option, String, code, false, get_or_else, head_code, if◌then◌else◌, is_empty_text,
  is_white_space, leb, ltb, nat_Eq, nat_eq, none, not, some, split_where, strip_prefix, text_Eq,
  to_ascii_lowercase, trim, trim_end_matches, trim_end_where, trim_start, true, ◌&&◌, ◌<>◌, ◌==◌,
  ◌>>=◌, ◌||◌,
}

pub data Command : Type 0 where
  review : Command
  fix : (args : String) → Command
  deepen retry cancel garden : Command
  remember forget : (note : String) → Command
  status : Command
  unknown : (verb : String) → Command

pub data MentionKind : Type 0 where
  command : Command → MentionKind
  casual : MentionKind
  no_mention : MentionKind

unfoldable pub command_list : String
command_list =
    "`review`, `fix`, `deepen`, `retry`, `cancel`, `garden`, `remember`, `forget`, `status`"

-- The command of a verb, and none for a mention with no verb.
unfoldable pub command_of : String → String → Option Command
command_of verb args =
    if verb == "review"
    then some Command.review
    else if verb == "fix"
    then some (Command.fix args)
    else if verb == "deepen"
    then some Command.deepen
    else if verb == "retry"
    then some Command.retry
    else if verb == "cancel"
    then some Command.cancel
    else if verb == "garden"
    then some Command.garden
    else if verb == "remember"
    then some (Command.remember args)
    else if verb == "forget"
    then some (Command.forget args)
    else if verb == "status"
    then some Command.status
    else if verb == ""
    then none
    else some (Command.unknown verb)

-- What the mention's remainder asks for.
unfoldable pub command_in : String → MentionKind
unfolding command_of trim to_ascii_lowercase
command_in rest =
    let (verb_raw, more) = split_where is_white_space (trim_start rest) in
    let args = trim (get_or_else more "") in
    let verb = to_ascii_lowercase (trim_end_where (λ (c : ℕ). nat_eq c b':') verb_raw) in
    elim (command_of verb args) [ none ↦ MentionKind.casual | some c ↦ MentionKind.command c ]

-- The mention of a bot's login.
unfoldable pub needle_of : String → String
needle_of handle = "@" <> handle

unfoldable pub handle_of : String → String
unfolding trim_end_matches
handle_of bot_username = trim_end_matches "[bot]" bot_username

-- `beyond` is `char::is_alphanumeric` on the characters that are not ASCII.
module _ (beyond : ℕ → Bool) where
  unfoldable pub is_alphanumeric : ℕ → Bool
  is_alphanumeric c =
      if ltb c 128
      then (leb b'0' c && leb c b'9') || (leb b'A' c && leb c b'Z') || (leb b'a' c && leb c b'z')
      else beyond c

  -- The character continues an identifier or a path.
  unfoldable pub continues : ℕ → Bool
  unfolding is_alphanumeric
  continues c = is_alphanumeric c || nat_eq c b'-' || nat_eq c b'_' || nat_eq c b'/'

  abbrev pub boundary_before : Option ℕ → Bool
  boundary_before none = true
  boundary_before (some c) = not (is_alphanumeric c) && not (nat_eq c b'@')

  abbrev pub boundary_after : Option ℕ → Bool
  boundary_after none = true
  boundary_after (some c) = not (continues c)

  unfoldable pub strip_command_mention : String → String → Option String
  unfolding strip_prefix
  strip_command_mention text needle = do
    rest ← strip_prefix needle text
    if boundary_after (head_code rest) then some rest else none

  -- The mention stands here, with the character `before` it.
  unfoldable pub mention_here : String → Option ℕ → String → Bool
  unfolding strip_prefix
  mention_here needle before s = elim (strip_prefix needle s) [
    | none ↦ false
    | some rest ↦ boundary_before before && boundary_after (head_code rest)
  ]

  -- The loop over the needle's occurrences, as a test at every character.
  unfoldable pub mentions_from : String → Option ℕ → String → Bool
  unfolding mention_here
  mentions_from needle before String.[] = false
  mentions_from needle before (String.◌∷◌ c s) =
      mention_here needle before (String.◌∷◌ c s) || mentions_from needle (some (code c)) s

  unfoldable pub mentions : String → String → Bool
  unfolding mentions_from
  mentions body bot_username =
      let handle = handle_of bot_username in
      if is_empty_text handle then false else mentions_from (needle_of handle) none body

  unfoldable pub parse_mention : String → String → MentionKind
  unfolding command_in strip_command_mention mentions
  parse_mention body bot_username =
      let handle = handle_of bot_username in
      if is_empty_text handle
      then MentionKind.no_mention
      else elim (strip_command_mention (trim_start body) (needle_of handle)) [
        | some rest ↦ command_in rest
        | none ↦ if mentions body bot_username then MentionKind.casual else MentionKind.no_mention
      ]
