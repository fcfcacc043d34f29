-- ===== src/Engine/Lifecycle/Edits.antt =====
-- relay/engine.ts: the thread after the lifecycle work of a reconciliation.
use forum_relay.Common.{
  ◌≡◌, refl, ap, sym, subst, String, Bool, true, false, not, List, [], ◌∷◌, Option, some, ◌==◌,
  string_eq, arith,
}
use Prim.Native.String.{◌++◌ as ◌<>◌}
use forum_relay.Common.Json.{Json}
use forum_relay.Intake.Origin.{member}
use forum_relay.Retry.{ok}
use forum_relay.Relay.{IssueThreadLink, IssueState, RelayAuthor}
use forum_relay.Engine.{Env, M, World, ◌>>◌, lift, each, when, truthy}
use forum_relay.Engine.Ends.{Any, Ends, Ends-bind, Ends-answer, Ends-known, Ends-weaker}
use forum_relay.Engine.Payloads.{
  GitHubIssue, PendingClose, optional_string, parse_pending_close, parse_github_actor,
  parse_github_issue, or_option,
}
use forum_relay.Engine.Decisions.{
  DiscordState, Repair, closed, locked, reopened, unlocked, action_name, is_closed,
  format_github_close_reason, reconciliation_lifecycle_repairs,
}
use forum_relay.Engine.Decisions.Repairs.{
  repaired, repaired_all, is_consistent, repaired_all-consistent,
}
use forum_relay.Engine.Messages.{edit_thread}
use forum_relay.Engine.Lifecycle.{
  apply_lifecycle, apply_action, close_thread, post_if, pending_url, close_reason, reopened_link,
  say, github_duplicate, linked_url, clear_pending, is_still_closed, actor_of, label_of, archive,
  lock_changes,
}
use forum_relay.Engine.Lifecycle.Threads.{
  thread_after, same_text, IsIn, Stays, edited_as, said, looked_up, cleared, posted_if, linked,
}

module _ (env : Env) (mapping_key thread : String) (d₀ : DiscordState) where
  announced :
      (link : IssueThreadLink) (pending : Option PendingClose) (actor : RelayAuthor)
      (content : String) (d : DiscordState) (w : World)
      → IsIn env mapping_key thread d₀ d w
      → Stays env mapping_key thread d₀
          (record d { archived = true })
          ((say env mapping_key thread actor content
              >> (edit_thread env thread (archive env mapping_key true)
                  >> clear_pending env mapping_key pending link))
            w)
  announced link pending actor content d w h =
      Ends-bind (say env mapping_key thread actor content)
        (λ _.
          edit_thread env thread (archive env mapping_key true)
          >> clear_pending env mapping_key pending link)
        w (λ w' a. IsIn env mapping_key thread d₀ (record d { archived = false }) w')
        (λ w' a. IsIn env mapping_key thread d₀ (record d { archived = true }) w') Any
        (said env mapping_key thread d₀ actor content d w h)
        (λ w' a k.
          Ends-bind (edit_thread env thread (archive env mapping_key true))
            (λ _. clear_pending env mapping_key pending link) w'
            (λ w' a. IsIn env mapping_key thread d₀ (record d { archived = true }) w')
            (λ w' a. IsIn env mapping_key thread d₀ (record d { archived = true }) w') Any
            (edited_as env mapping_key thread d₀ _ (record d { archived = false })
              (record d { archived = true }) w' k (rw (same_text thread) refl))
            (λ w' a k. cleared env mapping_key thread d₀ pending link _ w' k))

  closed_thread :
      (link : IssueThreadLink) (issue : GitHubIssue) (pending : Option PendingClose)
      (actor : RelayAuthor) (label : String) (d : DiscordState) (w : World)
      → IsIn env mapping_key thread d₀ d w
      → Stays env mapping_key thread d₀
          (record d { archived = true })
          (close_thread env mapping_key thread link issue pending actor label w)
  unfolding close_thread
  closed_thread link issue pending actor label d w h =
      Ends-bind (github_duplicate env mapping_key pending issue link) _ w
        (λ w' a. IsIn env mapping_key thread d₀ d w')
        (λ w' a. IsIn env mapping_key thread d₀ (record d { archived = true }) w') Any
        (looked_up env mapping_key thread d₀ _ _ link d w h)
        (λ w' found k.
          Ends-bind
            (linked_url env mapping_key
              (truthy (or_option (pending_url env mapping_key pending) found)))
            _ w' (λ w' a. IsIn env mapping_key thread d₀ d w')
            (λ w' a. IsIn env mapping_key thread d₀ (record d { archived = true }) w') Any
            (linked env mapping_key thread d₀
              (truthy (or_option (pending_url env mapping_key pending) found)) d w' k)
            (λ w' discord_url k.
              Ends-bind
                (lift (
                  format_github_close_reason env
                    (close_reason env mapping_key
                      (truthy (or_option (pending_url env mapping_key pending) found)) pending
                      issue)
                    (or_option (pending_url env mapping_key pending) found) discord_url))
                (λ reason.
                  say env mapping_key thread actor
                    ("> Closed by " <> label <> " " <> reason <> " on GitHub")
                  >> (edit_thread env thread (archive env mapping_key true)
                      >> clear_pending env mapping_key pending link))
                w' (λ w' a. IsIn env mapping_key thread d₀ d w')
                (λ w' a. IsIn env mapping_key thread d₀ (record d { archived = true }) w') Any
                (Ends-answer w' _ (λ w' a. IsIn env mapping_key thread d₀ d w') Any (λ a. k) tt)
                (λ w' reason k. announced link pending actor _ d w' k)))

  stays_when :
      (b : Bool) (m : M (Unit {0})) (d : DiscordState) (w : World)
      → IsIn env mapping_key thread d₀ d w
      → (b ≡ true → Stays env mapping_key thread d₀ d (m w))
      → Stays env mapping_key thread d₀ d (when b m w)
  stays_when true m d w h k = k refl
  stays_when false m d w h k = h

  negated_true : (b : Bool) → not b ≡ true → false ≡ b
  negated_true false h = refl
  negated_true true h = h

  still_closed :
      (link : IssueThreadLink) (issue : GitHubIssue)
      → link.state ≡ issue.state
      → is_still_closed (record link { locked = false }) ≡ is_closed issue.state
  still_closed link issue s = ground (arith, s)

  -- Each repair does to the thread what it means, when the link agrees with the issue.
  repair_applied :
      (repair : Repair) (link : IssueThreadLink) (issue : GitHubIssue) (webhook : Json)
      (kind : Option String) (pending : Option PendingClose) (actor : RelayAuthor) (label : String)
      (d : DiscordState) (w : World)
      → truthy link.discord_thread_id ≡ some thread
      → link.state ≡ issue.state
      → IsIn env mapping_key thread d₀ d w
      → Stays env mapping_key thread d₀ (repaired issue.state issue.locked repair d) (
          apply_action env mapping_key
            (action_name repair)
            thread
            link
            issue
            webhook
            kind
            pending
            actor
            label
            w)
  unfolding apply_action
  repair_applied closed link issue webhook kind pending actor label d w t s h =
      closed_thread link issue pending actor label d w h
  repair_applied locked link issue webhook kind pending actor label d w t s h =
      Ends-bind (say env mapping_key thread actor ("> Locked by " <> label <> " on GitHub"))
        (λ _. edit_thread env thread (lock_changes env mapping_key true true)) w
        (λ w' a. IsIn env mapping_key thread d₀ (record d { archived = false }) w')
        (λ w' a. IsIn env mapping_key thread d₀ (record { archived = true; locked = true }) w') Any
        (said env mapping_key thread d₀ actor _ d w h)
        (λ w' a k.
          edited_as env mapping_key thread d₀ _ (record d { archived = false }) _ w' k
            (rw (same_text thread) refl))
  repair_applied reopened link issue webhook kind pending actor label d w t s h =
      Ends-bind (edit_thread env thread (lock_changes env mapping_key issue.locked issue.locked))
        (λ _.
          when (not issue.locked)
            (post_if env mapping_key kind (reopened_link env mapping_key link issue) webhook))
        w
        (λ w' a.
          IsIn env mapping_key thread d₀ (record { archived = issue.locked; locked = issue.locked })
            w')
        (λ w' a.
          IsIn env mapping_key thread d₀ (record { archived = issue.locked; locked = issue.locked })
            w')
        Any (edited_as env mapping_key thread d₀ _ d _ w h (rw (same_text thread) refl))
        (λ w' a k. stays_when (not issue.locked) _ _ w' k (λ unlocked.
          posted_if env mapping_key thread d₀ kind (reopened_link env mapping_key link issue)
            webhook _ w' t (negated_true issue.locked unlocked) k))
  repair_applied unlocked link issue webhook kind pending actor label d w t s h =
      Ends-bind
        (edit_thread env thread (lock_changes env mapping_key (is_closed issue.state) false))
        (λ _. post_if env mapping_key kind (record link { locked = false }) webhook) w
        (λ w' a.
          IsIn env mapping_key thread d₀
            (record { archived = is_closed issue.state; locked = false }) w')
        (λ w' a.
          IsIn env mapping_key thread d₀
            (record { archived = is_closed issue.state; locked = false }) w')
        Any (edited_as env mapping_key thread d₀ _ d _ w h (rw (same_text thread) refl))
        (λ w' a k.
          posted_if env mapping_key thread d₀ kind (record link { locked = false }) webhook _ w' t
            (still_closed link issue s) k)

  lifecycle_applied :
      (action : String) (link : IssueThreadLink) (issue : GitHubIssue) (webhook payload : Json)
      (e d : DiscordState) (w : World)
      → (action == "activity") ≡ false
      → parse_github_issue env webhook ≡ ok issue
      → ((kind : Option String) (pending : Option PendingClose) (actor : RelayAuthor)
            (label : String) (w : World)
          → IsIn env mapping_key thread d₀ d w
          → Stays env mapping_key thread d₀ e (
              apply_action env mapping_key action thread link issue webhook kind pending actor label
                w))
      → IsIn env mapping_key thread d₀ d w
      → Stays env mapping_key thread d₀ e
          (apply_lifecycle env mapping_key action link webhook payload thread w)
  unfolding apply_lifecycle
  lifecycle_applied action link issue webhook payload e d w n p f h =
      rw (apply_lifecycle, n)
        (Ends-known (lift (parse_github_issue env webhook)) _ w issue
          (λ w' a. IsIn env mapping_key thread d₀ e w') Any (ap (λ x. (w, x)) p)
          (Ends-bind (lift (parse_github_actor env (member webhook "sender"))) _ w
            (λ w' a. IsIn env mapping_key thread d₀ d w')
            (λ w' a. IsIn env mapping_key thread d₀ e w') Any
            (Ends-answer w _ (λ w' a. IsIn env mapping_key thread d₀ d w') Any (λ a. h) tt)
            (λ w' actor k.
              f (truthy (optional_string payload "activityKind"))
                (parse_pending_close env link.status)
                (actor_of env mapping_key (parse_pending_close env link.status) actor)
                (label_of env mapping_key (parse_pending_close env link.status) actor webhook) w'
                k)))

  is_no_activity : (repair : Repair) → (action_name repair == "activity") ≡ false
  is_no_activity closed = refl
  is_no_activity locked = refl
  is_no_activity reopened = refl
  is_no_activity unlocked = refl

  all_applied :
      (repairs : List Repair) (link : IssueThreadLink) (issue : GitHubIssue)
      (webhook payload : Json) (d : DiscordState) (w : World)
      → truthy link.discord_thread_id ≡ some thread
      → link.state ≡ issue.state
      → parse_github_issue env webhook ≡ ok issue
      → IsIn env mapping_key thread d₀ d w
      → Stays env mapping_key thread d₀ (repaired_all issue.state issue.locked repairs d) (
          each repairs
            (λ r. apply_lifecycle env mapping_key (action_name r) link webhook payload thread)
            w)
  all_applied [] link issue webhook payload d w t s p h = h
  all_applied (r ∷ rs) link issue webhook payload d w t s p h =
      Ends-bind (apply_lifecycle env mapping_key (action_name r) link webhook payload thread)
        (λ _.
          each rs
            (λ r. apply_lifecycle env mapping_key (action_name r) link webhook payload thread))
        w (λ w' a. IsIn env mapping_key thread d₀ (repaired issue.state issue.locked r d) w')
        (λ w' a.
          IsIn env mapping_key thread d₀ (repaired_all issue.state issue.locked (r ∷ rs) d) w')
        Any
        (lifecycle_applied (action_name r) link issue webhook payload _ d w (is_no_activity r) p
          (λ kind pending actor label w k.
            repair_applied r link issue webhook kind pending actor label d w t s k)
          h)
        (λ w' a k. all_applied rs link issue webhook payload _ w' t s p k)

-- Let the link name the thread and agree with the issue of the webhook on its state, and let `d` be the
-- thread after the calls so far. When the lifecycle work for each action of
-- `reconciliation_lifecycle_repairs`, given `d`, is carried out in turn and none of it throws, the thread is
-- consistent with the issue after the edits that were made of it and the messages that were posted in it,
-- each of which opens an archived thread: it is locked as the issue is; it is archived if the issue is
-- closed; and it is not archived if the issue is open and not locked.
pub apply_lifecycle-is_consistent :
    (env : Env) (mapping_key thread : String) (link : IssueThreadLink) (issue : GitHubIssue)
    (webhook payload : Json) (previous : IssueState) (was_locked : Bool) (d₀ d : DiscordState)
    (w : World)
    → truthy link.discord_thread_id ≡ some thread
    → link.state ≡ issue.state
    → parse_github_issue env webhook ≡ ok issue
    → thread_after thread d₀ w.calls ≡ d
    → Ends
        (each
          (reconciliation_lifecycle_repairs issue.state issue.locked previous was_locked (some d))
          (λ r. apply_lifecycle env mapping_key (action_name r) link webhook payload thread)
          w)
        (λ w' a. is_consistent issue.state issue.locked (thread_after thread d₀ w'.calls) ≡ true)
        (λ w'. Unit)
apply_lifecycle-is_consistent env mapping_key thread link issue webhook payload previous was_locked
      d₀ d w t s p h =
    Ends-weaker _
      (λ w' a.
        thread_after thread d₀ w'.calls
        ≡ repaired_all issue.state issue.locked
            (reconciliation_lifecycle_repairs issue.state issue.locked previous was_locked (some d))
            d)
      _ (λ w'. Unit)
      (λ w' a k.
        subst (λ x. is_consistent issue.state issue.locked x ≡ true) (sym k)
          (repaired_all-consistent issue.state previous issue.locked was_locked d))
      (all_applied env mapping_key thread d₀ _ link issue webhook payload d w t s p h)
