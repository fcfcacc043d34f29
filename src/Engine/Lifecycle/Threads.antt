-- ===== src/Engine/Lifecycle/Threads.antt =====
-- relay/engine.ts: the thread that the edits made, and the steps that leave it as it is or archive it.
use forum_relay.Common.{
  some_inj, ◌≡◌, ◌∙◌, refl, ap, sym, subst, ℕ, String, Bool, true, false, List, [], ◌∷◌, Option,
  none, some, ◌==◌, string_eq, if◌then◌else◌, arith, text_iff,
}
use forum_relay.Common.Json.{Json}
use forum_relay.Config.{ForumMappingConfig}
use forum_relay.Retry.{Result}
use forum_relay.Relay.{IssueThreadLink, RelayAuthor}
use forum_relay.Engine.{
  Env, World, Segment, ◌>>◌, pure, truthy, Call, ThreadChanges, ActivityRender,
}
use forum_relay.Engine.Ends.{Any, Ends, Ends-bind, Ends-answer, Ends-rescued}
use forum_relay.Engine.Payloads.{PendingClose}
use forum_relay.Engine.Decisions.{DiscordState}
use forum_relay.Engine.Store.{ask}
use forum_relay.Engine.Messages.{edit_thread}
use forum_relay.Engine.Lifecycle.{
  post_github_activity, post_in, post_if, post_rendered, project_of, project_in,
  numbered_thread_url, url_in_mapping, mapped_discord_thread_url, asked_project, say, look_up,
  text_message, linked_url, clear_pending, is_still_closed, archive,
}

abbrev pub set_flag : Option Bool → Bool → Bool
set_flag none b = b
set_flag (some c) b = c

-- What a call makes of the thread, as the Discord API documents it: an edit sets the flags that it names,
-- and a message opens the thread when it is archived.
abbrev pub effect : String → Call → DiscordState → DiscordState
effect thread (Call.edit_thread t changes) d =
    if t == thread
    then record {
      archived = set_flag changes.archived d.archived;
      locked = set_flag changes.locked d.locked;
    }
    else d
effect thread (Call.create_message mapping_key t segment) d =
    if t == thread then record d { archived = false } else d
effect thread _ d = d

-- The thread after the calls, the newest of which comes first.
unfoldable pub thread_after : String → DiscordState → List Call → DiscordState
thread_after thread d [] = d
thread_after thread d (c ∷ cs) = let before = thread_after thread d cs in effect thread c before

pub same_text : (s : String) → (s == s) ≡ true
same_text s = ground (arith, text_iff s s)

module _ (env : Env) (mapping_key thread : String) (d₀ : DiscordState) where
  abbrev pub IsIn : DiscordState → World → Type 0
  IsIn d w = thread_after thread d₀ w.calls ≡ d

  -- The run ends with the thread as it is.
  abbrev pub Stays : {A : Type 0} → DiscordState → World × Result A → Type 0
  Stays d x = Ends x (λ w' a. IsIn d w') Any

  pub edited :
      (changes : ThreadChanges) (d : DiscordState) (w : World)
      → IsIn d w
      → Ends
          (edit_thread env thread changes w)
          (λ w' a. IsIn (effect thread (Call.edit_thread thread changes) d) w')
          Any
  unfolding thread_after
  edited changes d w h =
      Ends-answer _ _ (λ w' a. IsIn (effect thread (Call.edit_thread thread changes) d) w') Any
        (λ a. ap (effect thread (Call.edit_thread thread changes)) h) tt

  pub edited_as :
      (changes : ThreadChanges) (d e : DiscordState) (w : World)
      → IsIn d w
      → effect thread (Call.edit_thread thread changes) d ≡ e
      → Stays e (edit_thread env thread changes w)
  edited_as changes d e w h k =
      subst (λ x. Stays x (edit_thread env thread changes w)) k (edited changes d w h)

  -- A message leaves the thread open.
  pub said :
      (author : RelayAuthor) (content : String) (d : DiscordState) (w : World)
      → IsIn d w
      → Stays (record d { archived = false }) (say env mapping_key thread author content w)
  unfolding thread_after
  said author content d w h =
      Ends-answer _ _ (λ w' a. IsIn (record d { archived = false }) w') Any
        (λ a. opened w.calls (text_message author content) h) tt
    where
      opened :
          (calls : List Call) (segment : Segment)
          → thread_after thread d₀ calls ≡ d
          → thread_after thread d₀ (Call.create_message mapping_key thread segment ∷ calls)
            ≡ record d { archived = false }
      opened calls segment k = rw (k, same_text thread) refl

  pub asked :
      (project item : Option String) (d : DiscordState) (w : World)
      → IsIn d w
      → Ends (asked_project env mapping_key project item w) (λ w' a. IsIn d w') (IsIn d)
  unfolding thread_after
  asked (some id) item d w h = Ends-answer _ _ (λ w' a. IsIn d w') (IsIn d) (λ a. h) h
  asked none (some id) d w h = Ends-answer _ _ (λ w' a. IsIn d w') (IsIn d) (λ a. h) h
  asked none none d w h = h

  pub in_project :
      (item : Option Json) (d : DiscordState) (w : World)
      → IsIn d w
      → Stays d (project_in env mapping_key item w)
  in_project none d w h = h
  in_project (some item) d w h =
      Ends-rescued (asked_project env mapping_key _ _ w) _ (λ w' a. IsIn d w') (IsIn d) Any
        (asked _ _ d w h) (λ w' e k. k)

  pub looked_up :
      (url : Option String) (is_duplicate : Bool) (link : IssueThreadLink) (d : DiscordState)
      (w : World)
      → IsIn d w
      → Stays d (look_up env mapping_key url is_duplicate link w)
  unfolding thread_after
  looked_up (some url) is_duplicate link d w h = h
  looked_up none false link d w h = h
  looked_up none true link d w h =
      Ends-rescued
        (ask (Call.duplicate_of mapping_key link.github_issue_number) env.remote.duplicate_of w) _
        (λ w' a. IsIn d w') (IsIn d) Any (Ends-answer _ _ (λ w' a. IsIn d w') (IsIn d) (λ a. h) h)
        (λ w' e k. k)

  pub cleared :
      (pending : Option PendingClose) (link : IssueThreadLink) (d : DiscordState) (w : World)
      → IsIn d w
      → Stays d (clear_pending env mapping_key pending link w)
  cleared none link d w h = h
  cleared (some p) link d w h = h

  -- An open thread shows the message at once; an archived one is opened for it and archived again.
  pub posted :
      (unarchived : Bool) (rendered : Option ActivityRender) (d : DiscordState) (w : World)
      → unarchived ≡ d.archived
      → IsIn d w
      → Stays d (post_rendered env mapping_key thread unarchived rendered w)
  posted unarchived none d w a h = h
  posted false (some r) d w a h =
      Ends-bind (say env mapping_key thread r.author r.content) (λ _. pure tt) w
        (λ w' a. IsIn (record d { archived = false }) w') (λ w' a. IsIn d w') Any
        (said r.author r.content d w h) (λ w' x k. k ∙ ap (λ b. record d { archived = b }) a)
  posted true (some r) d w a h =
      let opened : DiscordState = record d { archived = false } in
      Ends-bind (edit_thread env thread (archive env mapping_key false))
        (λ _.
          say env mapping_key thread r.author r.content
          >> edit_thread env thread (archive env mapping_key true))
        w (λ w' a. IsIn opened w') (λ w' a. IsIn d w') Any
        (edited_as _ d opened w h (ground (arith, text_iff thread thread)))
        (λ w' x k.
          Ends-bind (say env mapping_key thread r.author r.content)
            (λ _. edit_thread env thread (archive env mapping_key true)) w' (λ w' a. IsIn opened w')
            (λ w' a. IsIn d w') Any (said r.author r.content opened w' k)
            (λ w' x k.
              edited_as (archive env mapping_key true) opened d w' k
                (rw (same_text thread) (ap (λ b. record d { archived = b }) a))))

  pub posted_in :
      (o : Option String) (link : IssueThreadLink) (webhook : Json) (kind : String)
      (d : DiscordState) (w : World)
      → o ≡ some thread
      → is_still_closed link ≡ d.archived
      → IsIn d w
      → Stays d (post_in env mapping_key o link webhook kind w)
  posted_in none link webhook kind d w e a h = cc
  posted_in (some t) link webhook kind d w e a h =
      subst (λ t. Stays d (post_in env mapping_key (some t) link webhook kind w)) (sym (some_inj e))
        (Ends-bind (project_of env mapping_key webhook kind)
          (λ project.
            post_rendered env mapping_key thread (is_still_closed link)
              (env.render.github_activity kind webhook project))
          w (λ w' p. IsIn d w') (λ w' a. IsIn d w') Any (in_project _ d w h)
          (λ w' p k. posted (is_still_closed link) _ d w' a k))

  pub posted_if :
      (kind : Option String) (link : IssueThreadLink) (webhook : Json) (d : DiscordState)
      (w : World)
      → truthy link.discord_thread_id ≡ some thread
      → is_still_closed link ≡ d.archived
      → IsIn d w
      → Stays d (post_if env mapping_key kind link webhook w)
  unfolding post_github_activity
  posted_if none link webhook d w e a h = h
  posted_if (some kind) link webhook d w e a h =
      posted_in (truthy link.discord_thread_id) link webhook kind d w e a h

  pub numbered :
      (number : Option ℕ) (d : DiscordState) (w : World)
      → IsIn d w
      → Stays d (numbered_thread_url env mapping_key number w)
  numbered none d w h = h
  numbered (some n) d w h = h

  pub in_mapping :
      (entry : Option (String × ForumMappingConfig)) (url : String) (d : DiscordState) (w : World)
      → IsIn d w
      → Stays d (url_in_mapping env mapping_key entry url w)
  in_mapping none url d w h = h
  in_mapping (some entry) url d w h = numbered _ d w h

  pub linked :
      (url : Option String) (d : DiscordState) (w : World)
      → IsIn d w
      → Stays d (linked_url env mapping_key url w)
  unfolding mapped_discord_thread_url
  linked none d w h = h
  linked (some url) d w h = in_mapping _ url d w h
