-- ===== src/Engine/Closing/Mirror.antt =====
-- relay/engine.ts: the link of an issue is what the calls to GitHub made of the issue.
use forum_relay.Common.{
  ◌≡◌, refl, ℕ, String, Bool, true, false, List, none, some, ◌==◌, string_eq, ℕ_eq, Bool-cases,
  Option-cases, inl, inr, ap,
}
use forum_relay.Common.Json.{Json, json_number, obj, field, num, str, end}
use forum_relay.Relay.{IssueThreadLink, IssueState, closed_issue, open_issue}
use forum_relay.Relay.Links.{get_link, update_link_title}
use forum_relay.Engine.{Env, World, pure, Call, IssueChanges, ◌>>=◌, ◌>>◌, lift, truthy}
use forum_relay.Engine.Ends.{
  Any, Ends, Ends-bind, Ends-answer, Ends-known, required_number-json_number,
  required_link-get_link,
}
use forum_relay.Engine.Payloads.{
  required_string, required_number, optional_string, issue_number_from_url, issue_reference,
}
use forum_relay.Engine.Comments.{no_issue_changes}
use forum_relay.Engine.Store.{required_link, ask, set_link_state, set_link_title}
use forum_relay.Engine.Closing.{
  carry_out, comment, update, set_lock, close_duplicate, state_changes, state_reason, close_reason,
  sync_github_lifecycle, for_link,
}
use forum_relay.Engine.Closing.Stages.{
  Issue, replay, Mirrors, get_link-update_link, is_of_refl, Stage, Done, comment-Stage,
  update-Stage, set_lock-Stage, set_link_state-Mirrors,
}

module _ (env : Env) (mapping_key : String) (i : Issue) (link : IssueThreadLink) where
  -- A comment, a change of the issue, and the same change of the link.
  told-Mirrors :
      (body : String) (changes : IssueChanges) (new : IssueState) (w : World)
      → Stage env mapping_key i link link.state link.locked w
      → changes.state ≡ some new
      → Ends
          ((comment env mapping_key link body
              >> (update env mapping_key link changes
                  >> set_link_state env link.id new link.locked))
            w)
          (λ w' a. Done env mapping_key i link w')
          Any
  told-Mirrors body changes new w h e =
      Ends-bind (comment env mapping_key link body)
        (λ _. update env mapping_key link changes >> set_link_state env link.id new link.locked) w
        (λ w' a. Stage env mapping_key i link link.state link.locked w')
        (λ w' a. Done env mapping_key i link w') Any
        (comment-Stage env mapping_key i link body link.state link.locked w h)
        (λ w' a k.
          Ends-bind (update env mapping_key link changes)
            (λ _. set_link_state env link.id new link.locked) w'
            (λ w' a. Stage env mapping_key i link new link.locked w')
            (λ w' a. Done env mapping_key i link w') Any
            (update-Stage env mapping_key i link changes link.state link.locked w' k new e)
            (λ w' a k. set_link_state-Mirrors env mapping_key i link new link.locked w' k))

  locked-Mirrors :
      (new : Bool) (w : World)
      → Stage env mapping_key i link link.state link.locked w
      → Ends
          ((set_lock env mapping_key link new >> set_link_state env link.id link.state new) w)
          (λ w' a. Done env mapping_key i link w')
          Any
  locked-Mirrors new w h =
      Ends-bind (set_lock env mapping_key link new) (λ _. set_link_state env link.id link.state new)
        w (λ w' a. Stage env mapping_key i link link.state new w')
        (λ w' a. Done env mapping_key i link w') Any
        (set_lock-Stage env mapping_key i link link.state link.locked new w h)
        (λ w' a k. set_link_state-Mirrors env mapping_key i link link.state new w' k)

  quiet-Stage :
      (changes : IssueChanges) (w : World)
      → Stage env mapping_key i link link.state link.locked w
      → changes.state ≡ none
      → Ends
          (update env mapping_key link changes w)
          (λ w' a. Stage env mapping_key i link link.state link.locked w')
          Any
  unfolding get_link replay
  quiet-Stage changes w h e =
      Ends-answer _ _ (λ w' a. Stage env mapping_key i link link.state link.locked w') Any
        (λ a. (h.0, rw (is_of_refl mapping_key link.github_issue_number, e, h.1) refl)) tt

  Stage-Mirrors :
      (w : World)
      → Stage env mapping_key i link link.state link.locked w
      → Done env mapping_key i link w
  unfolding get_link replay Mirrors
  Stage-Mirrors w h = (link, h.0, refl, h.1)

  current-Stage :
      (number : ℕ) (w : World)
      → Stage env mapping_key i link link.state link.locked w
      → Ends
          (ask (Call.current_issue mapping_key number) env.remote.current_issue w)
          (λ w' a. Stage env mapping_key i link link.state link.locked w')
          Any
  unfolding get_link replay
  current-Stage number w h =
      Ends-answer _ _ (λ w' a. Stage env mapping_key i link link.state link.locked w') Any (λ a. h)
        tt

  rename-Mirrors :
      (title : String) (w : World)
      → Stage env mapping_key i link link.state link.locked w
      → Ends
          ((update env mapping_key link (record no_issue_changes { title = some title })
              >> set_link_title env link.id title)
            w)
          (λ w' a. Done env mapping_key i link w')
          Any
  unfolding get_link replay Mirrors update_link_title
  rename-Mirrors title w h =
      Ends-bind (update env mapping_key link (record no_issue_changes { title = some title }))
        (λ _. set_link_title env link.id title) w
        (λ w' a. Stage env mapping_key i link link.state link.locked w')
        (λ w' a. Done env mapping_key i link w') Any (quiet-Stage _ w h refl)
        (λ w' a k. (
          record link { full_title = title },
          get_link-update_link w'.links link.id _ (λ l. record l { full_title = title }) link
              (λ m. refl) k.0,
          refl,
          k.1,
        ))

  close_duplicate-Mirrors :
      (by reason url : String) (w : World)
      → Stage env mapping_key i link link.state link.locked w
      → Ends
          (close_duplicate env mapping_key link by reason url w)
          (λ w' a. Done env mapping_key i link w')
          Any
  unfolding issue_number_from_url issue_reference
  close_duplicate-Mirrors by reason url w h =
      Ends-bind (lift (issue_number_from_url env url)) _ w
        (λ w' a. Stage env mapping_key i link link.state link.locked w')
        (λ w' a. Done env mapping_key i link w') Any
        (Ends-answer w _ (λ w' a. Stage env mapping_key i link link.state link.locked w') Any
          (λ a. h) tt)
        (λ w' number k.
          Ends-bind (ask (Call.current_issue mapping_key number) env.remote.current_issue) _ w'
            (λ w' a. Stage env mapping_key i link link.state link.locked w')
            (λ w' a. Done env mapping_key i link w') Any (current-Stage number w' k)
            (λ w' duplicate k.
              Ends-bind (lift (issue_reference env url)) _ w'
                (λ w' a. Stage env mapping_key i link link.state link.locked w')
                (λ w' a. Done env mapping_key i link w') Any
                (Ends-answer w' _ (λ w' a. Stage env mapping_key i link link.state link.locked w')
                  Any (λ a. k) tt)
                (λ w' reference k.
                  told-Mirrors _
                    (state_changes env mapping_key link (some duplicate.id) closed_issue
                      (state_reason reason))
                    closed_issue w' k refl)))

  lock-Mirrors :
      (body : String) (w : World)
      → Stage env mapping_key i link link.state link.locked w
      → Ends
          ((comment env mapping_key link body
              >> (set_lock env mapping_key link true >> set_link_state env link.id link.state true))
            w)
          (λ w' a. Done env mapping_key i link w')
          Any
  lock-Mirrors body w h =
      Ends-bind (comment env mapping_key link body)
        (λ _. set_lock env mapping_key link true >> set_link_state env link.id link.state true) w
        (λ w' a. Stage env mapping_key i link link.state link.locked w')
        (λ w' a. Done env mapping_key i link w') Any
        (comment-Stage env mapping_key i link body link.state link.locked w h)
        (λ w' a k. locked-Mirrors true w' k)

  titled-Mirrors :
      (payload : Json) (w : World)
      → Stage env mapping_key i link link.state link.locked w
      → Ends
          ((lift (required_string payload "title") >>= λ title.
              update env mapping_key link (record no_issue_changes { title = some title })
              >> set_link_title env link.id title)
            w)
          (λ w' a. Done env mapping_key i link w')
          Any
  titled-Mirrors payload w h =
      Ends-bind (lift (required_string payload "title")) _ w
        (λ w' a. Stage env mapping_key i link link.state link.locked w')
        (λ w' a. Done env mapping_key i link w') Any
        (Ends-answer w _ (λ w' a. Stage env mapping_key i link link.state link.locked w') Any
          (λ a. h) tt)
        (λ w' title k. rename-Mirrors title w' k)

  labels-Mirrors :
      (labels : List String) (w : World)
      → Stage env mapping_key i link link.state link.locked w
      → Ends
          (update env mapping_key link (record no_issue_changes { labels = some labels }) w)
          (λ w' a. Done env mapping_key i link w')
          Any
  unfolding get_link replay Mirrors
  labels-Mirrors labels w h =
      Ends-answer _ _ (λ w' a. Done env mapping_key i link w') Any
        (λ a. (link, h.0, refl, rw (is_of_refl mapping_key link.github_issue_number, h.1) refl)) tt

  carry_out-Mirrors :
      (action : String) (payload : Json) (w : World)
      → Stage env mapping_key i link link.state link.locked w
      → Ends
          (carry_out env mapping_key link action payload w)
          (λ w' a. Done env mapping_key i link w')
          Any
  unfolding carry_out
  carry_out-Mirrors action payload w h = elim (Bool-cases (action == "close")) [
    | inl e ↦ elim (Option-cases (truthy (optional_string payload "duplicateUrl"))) [
      | inl f ↦ rw (e, f) (told-Mirrors _ _ closed_issue w h refl)
      | inr (url, f) ↦
          rw (e, f)
            (close_duplicate-Mirrors _ (close_reason (optional_string payload "reason")) url w h)
    ]
    | inr e ↦ elim (Bool-cases (action == "reopen")) [
      | inl f ↦ rw (e, f) (told-Mirrors _ _ open_issue w h refl)
      | inr f ↦ elim (Bool-cases (action == "lock")) [
        | inl g ↦ rw (e, f, g) (lock-Mirrors _ w h)
        | inr g ↦ elim (Bool-cases (action == "unlock")) [
          | inl j ↦ rw (e, f, g, j) (locked-Mirrors false w h)
          | inr j ↦ elim (Bool-cases (action == "rename")) [
            | inl k ↦ rw (e, f, g, j, k) (titled-Mirrors payload w h)
            | inr k ↦ elim (Bool-cases (action == "labels")) [
              | inl l ↦ rw (e, f, g, j, k, l) (labels-Mirrors _ w h)
              | inr l ↦ rw (e, f, g, j, k, l) (Stage-Mirrors w h)
            ]
          ]
        ]
      ]
    ]
  ]

for_link-Mirrors :
    (env : Env) (mapping_key : String) (i : Issue) (link : IssueThreadLink) (payload : Json)
    (w : World)
    → Stage env mapping_key i link link.state link.locked w
    → Ends
        (for_link env mapping_key payload link w)
        (λ w' a. Mirrors mapping_key i link w')
        (λ w'. Unit)
for_link-Mirrors env mapping_key i link payload w h =
    Ends-bind (lift (required_string payload "action"))
      (λ action.
        carry_out env mapping_key link action payload
        >> pure (
            obj (
              field "action" (str action)
                (field "issueNumber" (num link.github_issue_number) end))))
      w (λ w' a. Stage env mapping_key i link link.state link.locked w')
      (λ w' a. Mirrors mapping_key i link w') (λ w'. Unit)
      (Ends-answer w (required_string payload "action")
        (λ w' a. Stage env mapping_key i link link.state link.locked w') (λ w'. Unit) (λ a. h) tt)
      (λ w' action k.
        Ends-bind (carry_out env mapping_key link action payload) (λ _. pure _) w'
          (λ w' a. Mirrors mapping_key i link w') (λ w' a. Mirrors mapping_key i link w')
          (λ w'. Unit) (carry_out-Mirrors env mapping_key i link action payload w' k) (λ w' a k. k))

-- When the link says of the issue what the calls so far made of it, and the operation names the link, then
-- `sync_github_lifecycle` keeps that so whenever it returns: after each action the link in the table has the
-- state and the lock that the calls to GitHub gave the issue.
pub sync_github_lifecycle-Mirrors :
    (env : Env) (mapping_key : String) (payload : Json) (link : IssueThreadLink) (i : Issue)
    (w : World)
    → json_number payload "linkId" ≡ some link.id
    → get_link w.links link.id ≡ some link
    → replay mapping_key link.github_issue_number i w.calls
      ≡ record { state = link.state; locked = link.locked }
    → Ends
        (sync_github_lifecycle env mapping_key payload w)
        (λ w' a. Mirrors mapping_key i link w')
        (λ w'. Unit)
unfolding sync_github_lifecycle
sync_github_lifecycle-Mirrors env mapping_key payload link i w n h k =
    Ends-known (lift (required_number payload "linkId"))
      (λ id. required_link env id >>= for_link env mapping_key payload) w link.id
      (λ w' a. Mirrors mapping_key i link w') (λ w'. Unit)
      (ap (λ x. (w, x)) (required_number-json_number payload "linkId" link.id n))
      (Ends-known (required_link env link.id) (for_link env mapping_key payload) w link
        (λ w' a. Mirrors mapping_key i link w') (λ w'. Unit)
        (required_link-get_link env link.id link w h)
        (for_link-Mirrors env mapping_key i link payload w (h, k)))
