-- ===== src/Engine/Closing/Stages.antt =====
-- relay/engine.ts: the issue that the calls to GitHub made, and what each step of `#syncGitHubLifecycle` makes
-- of it and of the link.
use forum_relay.Common.{
  text_iff, ◌≡◌, refl, ℕ, String, Bool, true, ◌&&◌, List, [], ◌∷◌, Option, none, some, ◌==◌,
  string_eq, ℕ_eq, if◌then◌else◌, arith, Option-cases, inl, inr, find, ap, find_sound,
}
use forum_relay.Common.Search.{find-update_where}
use forum_relay.Relay.{IssueThreadLink, IssueState}
use forum_relay.Relay.Links.{LinkTable, update_link, get_link, update_link_state, has_id}
use forum_relay.Engine.{Env, World, Call, IssueChanges}
use forum_relay.Engine.Ends.{Any, Ends, Ends-answer}
use forum_relay.Engine.Store.{set_link_state}
use forum_relay.Engine.Closing.{comment, update, set_lock}

-- An issue as GitHub has it: its state, and whether it is locked.
pub record Issue : Type 0 where
  pub state : IssueState
  pub locked : Bool

abbrev pub set_state : Option IssueState → Issue → Issue
set_state none i = i
set_state (some state) i = record i { state = state }

abbrev pub is_of : String → ℕ → String → ℕ → Bool
is_of mapping_key number m n = m == mapping_key && n == number

-- What a call makes of the issue of a number, as the GitHub API documents it.
abbrev pub effect : String → ℕ → Call → Issue → Issue
effect mapping_key number (Call.update_issue m n changes) i =
    if is_of mapping_key number m n then set_state changes.state i else i
effect mapping_key number (Call.set_lock m n locked) i =
    if is_of mapping_key number m n then record i { locked = locked } else i
effect mapping_key number _ i = i

-- The issue after the calls, the newest of which comes first.
unfoldable pub replay : String → ℕ → Issue → List Call → Issue
replay mapping_key number i [] = i
replay mapping_key number i (c ∷ cs) =
    let before = replay mapping_key number i cs in effect mapping_key number c before

-- The link is in the table, and says of the issue what the calls made of it.
unfoldable pub Mirrors : String → Issue → IssueThreadLink → World → Type 0
unfolding get_link replay
Mirrors mapping_key i link w =
    (l : IssueThreadLink) × (get_link w.links link.id ≡ some l)
    × (l.github_issue_number ≡ link.github_issue_number)
    × (replay mapping_key link.github_issue_number i w.calls
        ≡ record { state = l.state; locked = l.locked })

pub get_link-update_link :
    (t : LinkTable) (id now : ℕ) (change : IssueThreadLink → IssueThreadLink) (l : IssueThreadLink)
    → ((m : IssueThreadLink) → (change m).id ≡ m.id)
    → get_link t id ≡ some l
    → get_link (update_link id now change t) id ≡ some (change l)
unfolding get_link
get_link-update_link t id now change l same h = elim (Option-cases (find (has_id id) t.rows)) [
  | inl e ↦ ground (arith, e)
  | inr (r, e) ↦ ground (
    arith,
    e,
    find-update_where (has_id id) (has_id id)
        (λ r. record r { link = change r.link; updated_at = now })
        (λ x. ap (λ n. n == id) (same x.link)) t.rows r e,
    find_sound (has_id id) t.rows r e,
  )
]

pub is_of_refl :
    (mapping_key : String) (number : ℕ) → is_of mapping_key number mapping_key number ≡ true
is_of_refl mapping_key number = ground (arith, text_iff mapping_key mapping_key)

module _ (env : Env) (mapping_key : String) (i : Issue) (link : IssueThreadLink) where
  -- The link is as it was read, and the calls made the issue this state and this lock.
  abbrev pub Stage : IssueState → Bool → World → Type 0
  Stage state locked w =
      (get_link w.links link.id ≡ some link)
      × (replay mapping_key link.github_issue_number i w.calls
          ≡ record { state = state; locked = locked })

  abbrev pub Done : World → Type 0
  Done = Mirrors mapping_key i link

  pub comment-Stage :
      (body : String) (state : IssueState) (locked : Bool) (w : World)
      → Stage state locked w
      → Ends (comment env mapping_key link body w) (λ w' a. Stage state locked w') Any
  unfolding get_link replay
  comment-Stage body state locked w h =
      Ends-answer _ _ (λ w' a. Stage state locked w') Any (λ a. h) tt

  pub update-Stage :
      (changes : IssueChanges) (state : IssueState) (locked : Bool) (w : World)
      → Stage state locked w
      → (new : IssueState) → changes.state ≡ some new
      → Ends (update env mapping_key link changes w) (λ w' a. Stage new locked w') Any
  unfolding get_link replay
  update-Stage changes state locked w h new e =
      Ends-answer _ _ (λ w' a. Stage new locked w') Any
        (λ a. (h.0, rw (is_of_refl mapping_key link.github_issue_number, e, h.1) refl)) tt

  pub set_lock-Stage :
      (state : IssueState) (locked new : Bool) (w : World)
      → Stage state locked w
      → Ends (set_lock env mapping_key link new w) (λ w' a. Stage state new w') Any
  unfolding get_link replay
  set_lock-Stage state locked new w h =
      Ends-answer _ _ (λ w' a. Stage state new w') Any
        (λ a. (h.0, rw (is_of_refl mapping_key link.github_issue_number, h.1) refl)) tt

  pub set_link_state-Mirrors :
      (state : IssueState) (locked : Bool) (w : World)
      → Stage state locked w
      → Ends (set_link_state env link.id state locked w) (λ w' a. Done w') Any
  unfolding get_link replay Mirrors update_link_state
  set_link_state-Mirrors state locked w h = (
    record link { state = state; locked = locked },
    get_link-update_link w.links link.id _ (λ l. record l { state = state; locked = locked }) link
        (λ m. refl) h.0,
    refl,
    h.1,
  )
