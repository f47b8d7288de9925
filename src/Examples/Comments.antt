-- ===== src/Examples/Comments.antt =====
-- The theorems on mentions, applied (crates/webhook/src/commands.rs).
use coven_github.Examples.Intake.{no_unicode}
use coven_github.Webhook.Commands.Mentions.{mentions_lem, MentionedAt}
use coven_github.Webhook.Commands.{
  command_of, is_alphanumeric, command_in, continues, needle_of, mention_here,
  strip_command_mention, mentions_from, parse_mention, mentions, handle_of, MentionKind, Command,
}
use coven_github.Base.{
  String, false, is_empty_text, none, refl, split_where, strip_prefix, strip_suffix_text,
  to_ascii_lowercase, trim, trim_end_matches, trim_end_where, trim_start, true, ◌↔◌, ◌≡◌,
}

mentions_lem_example : (mentions no_unicode "thanks @coven-cody!" "coven-cody[bot]" ≡ true) ↔ (
    (is_empty_text (handle_of "coven-cody[bot]") ≡ false)
    × MentionedAt no_unicode none (needle_of (handle_of "coven-cody[bot]")) "thanks @coven-cody!")
mentions_lem_example = mentions_lem no_unicode "thanks @coven-cody!" "coven-cody[bot]"

abbrev order : String
order = " @coven-cody fix: the lint is still failing"

abbrev fix_lint : Command
fix_lint = Command.fix "the lint is still failing"

-- The sides hold of these comments.
parsed : parse_mention no_unicode order "coven-cody[bot]" ≡ MentionKind.command fix_lint
unfolding parse_mention handle_of trim_end_matches strip_suffix_text trim_start
    strip_command_mention needle_of strip_prefix continues is_alphanumeric command_in command_of
    trim trim_end_where to_ascii_lowercase split_where
parsed = refl

mentioned : mentions no_unicode "thanks @coven-cody!" "coven-cody[bot]" ≡ true
unfolding mentions mentions_from mention_here handle_of trim_end_matches strip_suffix_text needle_of
    strip_prefix continues is_alphanumeric
mentioned = refl

not_team : mentions no_unicode "ping @coven-cody/team" "coven-cody[bot]" ≡ false
unfolding mentions mentions_from mention_here handle_of trim_end_matches strip_suffix_text needle_of
    strip_prefix continues is_alphanumeric
not_team = refl
