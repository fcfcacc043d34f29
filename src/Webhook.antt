-- ===== src/Webhook.antt =====
-- github/webhook.ts: the check of a webhook's signature, and the event that a webhook becomes. Parameters,
-- in the record `Http`: the HMAC, the bytes that hexadecimal text stands for, the decoder of UTF-8, `Number` (0 for NaN),
-- `String` of a number, `trim` and `toLocaleLowerCase`.
pub mod Server
pub mod Authentic
pub mod Once
use Prim.Native.String.{count, ◌++◌ as ◌<>◌}
use Prim.Native.Char.{Char, code}
use forum_relay.Common.{
  ℕ, String, Bool, true, false, not, ◌&&◌, ◌||◌, List, [], ◌∷◌, Option, none, some, find, length,
  leb, nat_eq, ◌==◌, string_eq, if◌then◌else◌,
}
use forum_relay.Common.Json.{Json, json_string, json_number}
use forum_relay.Common.Texts.{starts_with, drop_chars, all_chars, is_between}
use forum_relay.Schema.Jobs.{JobPlatform}
use forum_relay.Retry.{Result, ok, err, Thrown, ◌>>=◌}
use forum_relay.Jobs.{Codec}
use forum_relay.Jobs.Inbox.{EnqueueInbox}
use forum_relay.Config.{Config, NormalizedMaintenanceConfig, ForumMappingConfig, throw}
use forum_relay.Intake.Origin.{member}
use forum_relay.Engine.{truthy}
use forum_relay.Engine.Payloads.{object_of}

pub record Http : Type 0 where
  pub hmac : String → List ℕ → List ℕ
  pub from_hex : String → List ℕ
  pub decode : List ℕ → String
  pub number : String → ℕ
  pub show : ℕ → String
  pub trim : String → String
  pub lower : String → String
  pub codec : Codec

pub record NormalizedGitHubWebhook : Type 0 where
  pub event : EnqueueInbox
  pub mapping_key : Option String
  pub reason : Option String

-- A letter in either case is told by both ranges.
abbrev is_hex : Char → Bool
is_hex c = is_between "0" "9" c || is_between "a" "f" c || is_between "A" "F" c

abbrev is_delivery_char : Char → Bool
is_delivery_char c = is_hex c || nat_eq (code c) (code "-")

abbrev is_event_char : Char → Bool
is_event_char c = is_between "a" "z" c || is_between "0" "9" c || nat_eq (code c) (code "_")

-- `DELIVERY_PATTERN` and `EVENT_PATTERN`
abbrev pub is_delivery_id : String → Bool
is_delivery_id s = leb 16 (count s) && leb (count s) 64 && all_chars is_delivery_char s

abbrev pub is_event_name : String → Bool
is_event_name s = leb 1 (count s) && leb (count s) 64 && all_chars is_event_char s

-- `timingSafeEqual`
abbrev pub bytes_equal : List ℕ → List ℕ → Bool
bytes_equal [] [] = true
bytes_equal (a ∷ xs) (b ∷ ys) = nat_eq a b && bytes_equal xs ys
bytes_equal _ _ = false

-- What a webhook is about: its mapping and partition, or why it is left aside.
pub record Routing : Type 0 where
  pub mapping_key : Option String
  pub partition_key : Option String
  pub reason : Option String

abbrev ignored : String → Routing
ignored reason = record { mapping_key = none; partition_key = none; reason = some reason }

abbrev or_else {ℓ} : {A : Type ℓ} → Option A → Option A → Option A
or_else none b = b
or_else (some a) b = some a

abbrev number_in : Option Json → String → Option ℕ
number_in none key = none
number_in (some v) key = json_number v key

abbrev text_in : Option Json → String → Option String
text_in none key = none
text_in (some v) key = json_string v key

module _ (http : Http) where
  unfoldable pub verify_github_signature : List ℕ → String → String → Bool
  verify_github_signature raw_body signature secret =
      let hex = drop_chars 7 signature in
      starts_with "sha256=" signature
      && nat_eq (count hex) 64
      && all_chars is_hex hex
      && bytes_equal (http.from_hex hex) (http.hmac secret raw_body)

  abbrev event_kind : String → Option String → String
  event_kind event_name none = event_name
  event_kind event_name (some action) = event_name <> "." <> action

  -- `createEvent`, with the routing that is spread over it.
  unfoldable pub create_event : String → String → Option String → Json → Routing → EnqueueInbox
  unfolding truthy
  create_event delivery_id event_name action payload routing = record {
    correlation_id = some delivery_id;
    event_kind = event_kind event_name (truthy action);
    idempotency_key = "github:" <> delivery_id;
    mapping_key = routing.mapping_key;
    partition_key = routing.partition_key;
    payload = payload;
    platform = JobPlatform.github;
  }

  abbrev owner_and_name : Option String → Option String → Option String
  owner_and_name (some login) (some name) = some (login <> "/" <> name)
  owner_and_name _ _ = none

  -- `repositoryFullName`
  unfoldable pub repository_full_name : Option Json → Option String
  unfolding truthy
  repository_full_name value = elim (object_of value) [
    | none ↦ none
    | some v ↦ or_else (truthy (json_string v "full_name")) (
        owner_and_name (truthy (text_in (object_of (member v "owner")) "login"))
          (truthy (json_string v "name")))
  ]

  abbrev is_repository : String → String × ForumMappingConfig → Bool
  is_repository name entry =
      http.lower (entry.1.repository.owner <> "/" <> entry.1.repository.name) == http.lower name

  abbrev key_of : Option (String × ForumMappingConfig) → Option String
  key_of none = none
  key_of (some entry) = some entry.0

  -- `findMapping`
  unfoldable pub find_mapping : Config NormalizedMaintenanceConfig → String → Option String
  find_mapping config name = key_of (find (is_repository name) config.mappings)

  abbrev key_from : Option ℕ → Option ℕ → Option ℕ → Option String
  key_from (some repository) (some issue) discussion =
      some ("github:" <> http.show repository <> ":issue:" <> http.show issue)
  key_from (some repository) none (some discussion) =
      some ("github:" <> http.show repository <> ":discussion:" <> http.show discussion)
  key_from _ _ _ = none

  -- `partitionKey`
  unfoldable pub partition_key : Json → Option String
  partition_key payload =
      key_from (number_in (object_of (member payload "repository")) "id")
        (number_in
          (or_else (object_of (member payload "issue")) (
            or_else (object_of (member payload "parent_issue"))
              (object_of (member payload "blocked_issue"))))
          "number")
        (number_in (object_of (member payload "discussion")) "id")

  abbrev is_pull_request : Json → Bool
  is_pull_request payload = elim (object_of (member payload "issue")) [
    | none ↦ false
    | some issue ↦ elim (object_of (member issue "pull_request")) [ none ↦ false | some p ↦ true ]
  ]

  abbrev is_issue_item : Option Json → Bool
  is_issue_item item = elim (text_in item "content_type") [ none ↦ false | some t ↦ t == "Issue" ]

  abbrev route_project : Option Json → Result Routing
  route_project item =
      if is_issue_item item
      then elim (truthy (text_in item "content_node_id")) [
        | none ↦ throw "GitHub Project item payload is missing content_node_id."
        | some id ↦ ok (record {
          mapping_key = none;
          partition_key = some ("github:issue-node:" <> id);
          reason = none;
        })
      ]
      else ok (ignored "unsupported-project-item")

  abbrev mapping_of : Config NormalizedMaintenanceConfig → Option String → Option String
  mapping_of config none = none
  mapping_of config (some name) = truthy (find_mapping config name)

  abbrev route_repository : Json → Option String → Routing
  route_repository payload none = ignored "unconfigured-repository"
  route_repository payload (some key) = record {
    mapping_key = some key;
    partition_key = partition_key payload;
    reason = none;
  }

  unfoldable pub route : Config NormalizedMaintenanceConfig → String → Json → Result Routing
  unfolding truthy find_mapping partition_key repository_full_name
  route config event_name payload =
      if event_name == "projects_v2_item"
      then route_project (object_of (member payload "projects_v2_item"))
      else if is_pull_request payload
      then ok (ignored "pull-request")
      else ok (
          route_repository payload
            (mapping_of config (repository_full_name (member payload "repository"))))

  abbrev pub body_object : Option Json → Result Json
  body_object none = throw "JSON Parse error"
  body_object (some payload) = elim (object_of (some payload)) [
    | none ↦ throw "GitHub webhook payload must be a JSON object."
    | some v ↦ ok v
  ]

  abbrev required : Bool → String → Result {0} Unit
  required good message = if good then ok tt else throw message

  unfoldable pub normalize_github_webhook :
      Config NormalizedMaintenanceConfig → String → String → String → Result NormalizedGitHubWebhook
  unfolding route create_event
  normalize_github_webhook config delivery_id event_name raw_body = do
    _ ← required (is_delivery_id delivery_id) "Invalid X-GitHub-Delivery header."
    _ ← required (is_event_name event_name) "Invalid X-GitHub-Event header."
    payload ← body_object (http.codec.parse raw_body)
    routing ← route config event_name payload
    ok (record {
      event = create_event delivery_id event_name (json_string payload "action") payload routing;
      mapping_key = routing.mapping_key;
      reason = routing.reason;
    })
