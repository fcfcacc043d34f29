-- ===== src/Intake/Origin.antt =====
-- discord/message-origin.ts and discord/webhook-selection.ts.
use Prim.Native.String.{◌++◌ as ◌<>◌}
use forum_relay.Common.{
  String, Bool, true, false, not, ◌&&◌, ◌||◌, Option, none, some, ◌==◌, string_eq, if◌then◌else◌,
}
use forum_relay.Common.Json.{Json, bool, obj, get, json_string, is_json_object}

pub record Author : Type 0 where
  pub bot : Bool
  pub id : String

pub record DiscordMessageOrigin : Type 0 where
  pub application_id : Option String
  pub author : Option Author
  pub has_interaction_metadata : Bool
  pub webhook_id : Option String

abbrev pub is_set : Option String → Bool
is_set none = false
is_set (some s) = not (s == "")

abbrev pub is_text : Option String → String → Bool
is_text none s = false
is_text (some t) s = t == s

abbrev pub is_bot_or : Option Author → String → Bool
is_bot_or none id = false
is_bot_or (some a) id = a.bot || a.id == id

unfoldable pub should_ignore_discord_message : DiscordMessageOrigin → String → Bool
should_ignore_discord_message m client_id =
    is_set m.webhook_id
    || m.has_interaction_metadata
    || is_bot_or m.author client_id
    || is_text m.application_id client_id

abbrev pub member : Json → String → Option Json
member (obj fs) key = get key fs
member _ key = none

abbrev pub is_object : Option Json → Bool
is_object none = false
is_object (some v) = is_json_object v

abbrev pub is_true : Option Json → Bool
is_true (some (bool b)) = b
is_true _ = false

-- The author of a stored message, when it is an object with an id that is not empty.
abbrev pub stored_author : Option Json → Option Author
stored_author none = none
stored_author (some a) = elim (json_string a "id") [
  | none ↦ none
  | some id ↦ if id == "" then none else some (record { bot = is_true (member a "bot"); id = id })
]

unfoldable pub should_ignore_stored_discord_message : Json → String → Bool
unfolding should_ignore_discord_message
should_ignore_stored_discord_message message client_id =
    should_ignore_discord_message
      (record {
        application_id = json_string message "application_id";
        author = stored_author (member message "author");
        has_interaction_metadata = is_object (member message "interaction_metadata");
        webhook_id = json_string message "webhook_id";
      })
      client_id

pub record DiscordWebhookCandidate : Type 0 where
  pub application_id : Option String
  pub channel_id : Option String
  pub name : Option String
  pub token : Option String
  pub user_id : Option String

abbrev pub forum_relay_webhook_name : String → String
forum_relay_webhook_name mapping_key = "Forum Relay · " <> mapping_key

abbrev pub is_there : Option String → Bool
is_there none = false
is_there (some s) = true

unfoldable pub is_stored_forum_relay_webhook : DiscordWebhookCandidate → String → String → Bool
is_stored_forum_relay_webhook w client_id channel_id =
    (is_text w.application_id client_id || is_text w.user_id client_id)
    && is_text w.channel_id channel_id
    && is_there w.token

unfoldable pub is_reusable_forum_relay_webhook :
    DiscordWebhookCandidate → String → String → String → Bool
is_reusable_forum_relay_webhook w client_id channel_id mapping_key =
    (is_text w.application_id client_id || is_text w.user_id client_id)
    && (is_text w.name (forum_relay_webhook_name mapping_key)
        || is_text w.name ("Forum Relay Â· " <> mapping_key))
    && is_text w.channel_id channel_id
    && is_there w.token
