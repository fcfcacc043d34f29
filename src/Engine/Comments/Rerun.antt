-- ===== src/Engine/Comments/Rerun.antt =====
-- relay/engine.ts: `#createGitHubIssue`, run again after it returned.
use forum_relay.Common.{◌≡◌, refl, ap, sym, ◌∙◌, ℕ, String, [], Option, none, some, string_eq}
use Prim.Native.String.{◌++◌ as ◌<>◌}
use forum_relay.Common.Json.{Json, json_string, json_number, get}
use forum_relay.Retry.{Result, ok, err}
use forum_relay.Relay.{IssueThreadLink, RelayItem}
use forum_relay.Relay.Links.{LinkTable, find_link_by_discord}
use forum_relay.Engine.{Env, M, World, ◌>>=◌, ◌>>◌, pure, lift, Call, CreatedIssue}
use forum_relay.Engine.Ends.{
  Any, Ends, Ends-weaker, Ends-bind, Ends-answer, Ends-known, required_string-json_string,
}
use forum_relay.Engine.Store.{
  ask, find_thread_link, create_link, upsert_item, set_item_destination, set_item_hash,
}
use forum_relay.Intake.Origin.{member}
use forum_relay.Engine.Payloads.{
  DiscordMessage, required_object, required_string, parse_discord_message,
}
use forum_relay.Engine.Queueing.{persist_attachments, enqueue_github_sync}
use forum_relay.Engine.Comments.{
  create_github_issue, open_issue_for, created_identity, issue_result, relay_starter, starter_input,
  created_result, issue_for, new_issue, new_body,
}
use forum_relay.Engine.Comments.Frames.{
  I, upsert_item-Keeps, set_item_destination-Keeps, enqueue_github_sync-Keeps,
  persist_attachments-Keeps, with_links-Ends, created_link-find,
}

created_id :
    (env : Env) (created : CreatedIssue)
    → json_number (created_result env created) "issueId" ≡ some created.id
unfolding json_number get
created_id env created = refl

created_number :
    (env : Env) (created : CreatedIssue)
    → json_number (created_result env created) "issueNumber" ≡ some created.number
unfolding json_number get
created_number env created = refl

issue_id :
    (env : Env) (id number : ℕ) → json_number (issue_result env id number) "issueId" ≡ some id
unfolding json_number get
issue_id env id number = refl

issue_number :
    (env : Env) (id number : ℕ)
    → json_number (issue_result env id number) "issueNumber" ≡ some number
unfolding json_number get
issue_number env id number = refl

module _ (env : Env) (mapping_key thread : String) where
  -- The thread has the link of the issue that the answer names.
  abbrev IsLinked : World → Json → Type 0
  IsLinked w a =
      (l : IssueThreadLink) × (find_link_by_discord w.links mapping_key thread ≡ some l)
      × (json_number a "issueId" ≡ some l.github_issue_id)
      × (json_number a "issueNumber" ≡ some l.github_issue_number)

  Ends_forget :
      {A : Type 0} (x : World × Result A) (Q : World → A → Type 0) (E : World → Type 0)
      → Ends x Q E
      → Ends x Q Any
  Ends_forget (w, ok a) Q E h = h
  Ends_forget (w, err e) Q E h = tt

  relay_starter-IsLinked :
      (message : DiscordMessage) (created : CreatedIssue) (l : IssueThreadLink) (w : World)
      → find_link_by_discord w.links mapping_key thread ≡ some l
      → l.github_issue_id ≡ created.id
      → l.github_issue_number ≡ created.number
      → Ends (relay_starter env mapping_key message thread created l w) (λ w' a. IsLinked w' a) Any
  relay_starter-IsLinked message created l w f i n =
      Ends_forget _ (λ w' a. IsLinked w' a) (I P env)
        (Ends-bind (upsert_item env (starter_input env mapping_key l.id message)) _ w
          (λ w' a. I P env w') (λ w' a. IsLinked w' a) (I P env) (upsert_item-Keeps P env _ w f)
          (λ w' item k.
            Ends-bind (set_item_destination env item.id (env.show created.id))
              (λ _. set_item_hash env item.id (env.hash (new_body env message thread)) >> rest item)
              w' (λ w' a. I P env w') (λ w' a. IsLinked w' a) (I P env)
              (set_item_destination-Keeps P env item.id _ w' k)
              (λ w' a k.
                Ends-bind (set_item_hash env item.id (env.hash (new_body env message thread)))
                  (λ _. rest item) w' (λ w' a. I P env w') (λ w' a. IsLinked w' a) (I P env) k
                  (λ w' a k. rested item w' k))))
    where
      rest : RelayItem → M Json
      rest item = do
        persist_attachments env item message.attachments
        enqueue_github_sync env mapping_key l item ("created:" <> message.revision) []
        pure (created_result env created)

      P : LinkTable → Type 0
      P t = find_link_by_discord t mapping_key thread ≡ some l

      rested :
          (item : RelayItem) (w : World)
          → I P env w
          → Ends (rest item w) (λ w' a. IsLinked w' a) (I P env)
      rested item w k =
          Ends-bind (persist_attachments env item message.attachments)
            (λ _.
              enqueue_github_sync env mapping_key l item ("created:" <> message.revision) []
              >> pure (created_result env created))
            w (λ w' a. I P env w') (λ w' a. IsLinked w' a) (I P env)
            (persist_attachments-Keeps P env item message.attachments w k)
            (λ w' a k.
              Ends-bind
                (enqueue_github_sync env mapping_key l item ("created:" <> message.revision) [])
                (λ _. pure (created_result env created)) w' (λ w' a. I P env w')
                (λ w' a. IsLinked w' a) (I P env)
                (enqueue_github_sync-Keeps P env mapping_key l item _ [] w' k)
                (λ w' a k. (
                  l,
                  k,
                  created_id env created ∙ ap some (sym i),
                  created_number env created ∙ ap some (sym n),
                )))

  create_link-IsLinked :
      (message : DiscordMessage) (title : String) (created : CreatedIssue) (w : World)
      → find_link_by_discord w.links mapping_key thread ≡ none
      → Ends
          ((create_link env mapping_key thread title (created_identity env created title)
              >>= relay_starter env mapping_key message thread created)
            w)
          (λ w' a. IsLinked w' a)
          Any
  create_link-IsLinked message title created w n =
      Ends-bind (create_link env mapping_key thread title (created_identity env created title))
        (relay_starter env mapping_key message thread created) w Created (λ w' a. IsLinked w' a) Any
        (with_links-Ends _ _ Created Any
          (λ l t e.
            created_link-find mapping_key thread title (created_identity env created title)
              (env.clock w.clock_reads) w.links t l n e)
          tt)
        (λ w' l k. relay_starter-IsLinked message created l w' k.2 k.0 k.1)
    where
      Created : World → IssueThreadLink → Type 0
      Created w' l =
          (l.github_issue_id ≡ created.id)
          × (l.github_issue_number ≡ created.number)
          × (find_link_by_discord w'.links mapping_key thread ≡ some l)

  open_issue_for-IsLinked :
      (payload : Json) (w : World)
      → find_link_by_discord w.links mapping_key thread ≡ none
      → Ends (open_issue_for env mapping_key payload thread w) (λ w' a. IsLinked w' a) Any
  unfolding open_issue_for
  open_issue_for-IsLinked payload w n =
      Ends-bind (lift (required_object (member payload "message") "message")) _ w
        (λ w' a. Unlinked w') (λ w' a. IsLinked w' a) Any
        (Ends-answer w _ (λ w' a. Unlinked w') Any (λ a. n) tt)
        (λ w' raw k.
          Ends-bind (lift (parse_discord_message env raw)) _ w' (λ w' a. Unlinked w')
            (λ w' a. IsLinked w' a) Any (Ends-answer w' _ (λ w' a. Unlinked w') Any (λ a. k) tt)
            (λ w' message k.
              Ends-bind (lift (required_string payload "title")) _ w' (λ w' a. Unlinked w')
                (λ w' a. IsLinked w' a) Any (Ends-answer w' _ (λ w' a. Unlinked w') Any (λ a. k) tt)
                (λ w' title k.
                  Ends-bind
                    (ask
                      (Call.create_issue (new_issue env mapping_key payload message thread title))
                      env.remote.create_issue)
                    (λ created.
                      create_link env mapping_key thread title (created_identity env created title)
                      >>= relay_starter env mapping_key message thread created)
                    w' (λ w' a. Unlinked w') (λ w' a. IsLinked w' a) Any
                    (Ends-answer _ _ (λ w' a. Unlinked w') Any (λ a. k) tt)
                    (λ w' created k. create_link-IsLinked message title created w' k))))
    where
      Unlinked : World → Type 0
      Unlinked w = find_link_by_discord w.links mapping_key thread ≡ none

  issue_for-IsLinked :
      (payload : Json) (o : Option IssueThreadLink) (w : World)
      → find_link_by_discord w.links mapping_key thread ≡ o
      → Ends (issue_for env mapping_key payload thread o w) (λ w' a. IsLinked w' a) Any
  issue_for-IsLinked payload none w e = open_issue_for-IsLinked payload w e
  issue_for-IsLinked payload (some l) w e = (
    l,
    e,
    issue_id env l.github_issue_id l.github_issue_number,
    issue_number env l.github_issue_id l.github_issue_number,
  )

  -- The thread's issue is there: the run ends at once with its ids.
  found_again :
      (payload : Json) (w : World) (l : IssueThreadLink)
      → json_string payload "threadId" ≡ some thread
      → find_link_by_discord w.links mapping_key thread ≡ some l
      → create_github_issue env mapping_key payload w
        ≡ (w, ok (issue_result env l.github_issue_id l.github_issue_number))
  unfolding create_github_issue
  found_again payload w l j f =
      rw (create_github_issue, required_string-json_string payload "threadId" thread j, f) refl

-- The answer `b` names the issue that the answer `a` names.
abbrev pub SameIssue : Json → Json → Type 0
SameIssue a b =
    (json_number a "issueId" ≡ json_number b "issueId")
    × (json_number a "issueNumber" ≡ json_number b "issueNumber")

-- When `create_github_issue` returns for a thread, running the same operation again in the world that it left
-- opens no second issue: the second run makes no call, leaves every table as it is, and returns the id and the
-- number of the same issue.
pub create_github_issue-once :
    (env : Env) (mapping_key thread : String) (payload : Json) (w : World)
    → json_string payload "threadId" ≡ some thread
    → Ends
        (create_github_issue env mapping_key payload w)
        (λ w' a.
          (b : Json) × (create_github_issue env mapping_key payload w' ≡ (w', ok b))
          × SameIssue a b)
        (λ w'. Unit)
unfolding create_github_issue
create_github_issue-once env mapping_key thread payload w j =
    Ends-known (lift (required_string payload "threadId"))
      (λ thread. find_thread_link mapping_key thread >>= issue_for env mapping_key payload thread) w
      thread Again (λ w'. Unit)
      (ap (λ x. (w, x)) (required_string-json_string payload "threadId" thread j))
      (Ends-weaker
        (issue_for env mapping_key payload thread (find_link_by_discord w.links mapping_key thread)
          w)
        (λ w' a. IsLinked env mapping_key thread w' a) Again (λ w'. Unit)
        (λ w' a k. (
          issue_result env k.0.github_issue_id k.0.github_issue_number,
          found_again env mapping_key thread payload w' k.0 j k.1,
          (
            k.2 ∙ sym (issue_id env k.0.github_issue_id k.0.github_issue_number),
            k.3 ∙ sym (issue_number env k.0.github_issue_id k.0.github_issue_number),
          ),
        ))
        (issue_for-IsLinked env mapping_key thread payload
          (find_link_by_discord w.links mapping_key thread) w refl))
  where
    Again : World → Json → Type 0
    Again w' a =
        (b : Json) × (create_github_issue env mapping_key payload w' ≡ (w', ok b)) × SameIssue a b
