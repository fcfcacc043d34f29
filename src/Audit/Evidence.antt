-- ===== src/Audit/Evidence.antt =====
-- jobs/audit-classifier.ts: `findEvidence`.
use Prim.Native.String.{◌++◌ as ◌<>◌}
use forum_relay.Common.{
  ℕ, ◌+◌, ◌-◌, ◌/◌, ◌^◌, String, Bool, false, not, ◌||◌, List, [], ◌∷◌, Option, none, some, find,
  ltb, ◌==◌, string_eq, if◌then◌else◌,
}
use forum_relay.Common.Json.{Json, arr, obj, get, items, json_string, is_json_object}
use forum_relay.Retry.{Result, ok, err, Thrown, ◌>>=◌}

pub record Evidence : Type 0 where
  pub actor_id : String
  pub actor_name : String

-- `value[key]`, of an object.
abbrev pub member : Json → String → Option Json
member (obj fs) key = get key fs
member _ key = none

-- `jsonArray`
abbrev pub json_array : Option Json → List Json
json_array (some (arr xs)) = items xs
json_array _ = []

abbrev pub is_text : String → Option String → Bool
is_text s none = false
is_text s (some t) = t == s

-- `snowflakeTimestamp`, of the number that the id prints.
abbrev pub snowflake_timestamp : ℕ → ℕ
snowflake_timestamp id = id / 2 ^ 22 + 1420070400000

abbrev pub distance : ℕ → ℕ → ℕ
distance a b = (a - b) + (b - a)

module _ (text_of : Option Json → String) (big_int : String → Option ℕ) (audit : Json) where
  -- The user of the log with that id.
  abbrev pub user_of : String → Option Json
  user_of actor =
      find (λ candidate. is_text actor (json_string candidate "id"))
        (json_array (member audit "users"))

  -- `user.username`, or a name made of the id.
  abbrev pub actor_name : String → String
  actor_name actor = elim (user_of actor) [
    | none ↦ "user-" <> actor
    | some user ↦ elim (json_string user "username") [ none ↦ "user-" <> actor | some name ↦ name ]
  ]

  -- One round: the evidence of the entry, or none when the loop goes on.
  unfoldable pub evidence_of : String → ℕ → Json → Result (Option Evidence)
  evidence_of thread_id observed_at entry =
      if not (is_json_object entry) || not (text_of (member entry "target_id") == thread_id)
      then ok none
      else elim (json_string entry "id") [
        | none ↦ ok none
        | some id ↦ elim (json_string entry "user_id") [
          | none ↦ ok none
          | some actor ↦ elim (big_int id) [
            | none ↦ err (Thrown.plain "Cannot convert to a BigInt")
            | some n ↦
                if ltb 30000 (distance (snowflake_timestamp n) observed_at)
                then ok none
                else ok (some (record { actor_id = actor; actor_name = actor_name actor }))
          ]
        ]
      ]

  unfoldable pub find_evidence : String → ℕ → List Json → Result (Option Evidence)
  unfolding evidence_of
  find_evidence thread_id observed_at [] = ok none
  find_evidence thread_id observed_at (entry ∷ entries) =
      let rest = find_evidence thread_id observed_at entries in
      evidence_of thread_id observed_at entry >>= λ found. elim found [
        | some e ↦ ok (some e)
        | none ↦ rest
      ]
