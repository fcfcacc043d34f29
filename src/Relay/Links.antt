-- ===== src/Relay/Links.antt =====
-- db/relay-repository.ts: the links. The table is the list of its rows and the last id that it gave.
use forum_relay.Common.{
  ℕ, suc, String, Bool, false, not, ◌&&◌, ◌||◌, List, [], ◌∷◌, ◌++◌, map, Option, none, some, any,
  keep, find, update_where, ◌==◌, string_eq, ℕ_eq, if◌then◌else◌, leb,
}
use forum_relay.Retry.{Result, ok, err}
use forum_relay.Relay.{
  IssueState, open_issue, GitHubIssueIdentity, IssueThreadLink, LinkRow, unique_failed,
}

pub record LinkTable : Type 0 where
  pub last_id : ℕ
  pub rows : List LinkRow

abbrev pub is_some : String → Option String → Bool
is_some s none = false
is_some s (some t) = t == s

-- `result.rows[0] ? toLink(result.rows[0]) : undefined`
abbrev pub to_link : Option LinkRow → Option IssueThreadLink
to_link none = none
to_link (some r) = some r.link

abbrev pub is_of_issue : String → ℕ → LinkRow → Bool
is_of_issue mapping_key issue_id r =
    r.link.mapping_key == mapping_key && r.link.github_issue_id == issue_id

abbrev pub is_of_thread : String → String → LinkRow → Bool
is_of_thread mapping_key thread_id r =
    r.link.mapping_key == mapping_key && is_some thread_id r.link.discord_thread_id

abbrev pub has_id : ℕ → LinkRow → Bool
has_id id r = r.link.id == id

unfoldable pub find_link_by_github : LinkTable → String → ℕ → Option IssueThreadLink
find_link_by_github t mapping_key issue_id =
    to_link (find (is_of_issue mapping_key issue_id) t.rows)

unfoldable pub find_link_by_discord : LinkTable → String → String → Option IssueThreadLink
find_link_by_discord t mapping_key thread_id =
    to_link (find (is_of_thread mapping_key thread_id) t.rows)

unfoldable pub find_link_by_github_number : LinkTable → String → ℕ → Option IssueThreadLink
find_link_by_github_number t mapping_key number =
    to_link
      (find (λ r. r.link.mapping_key == mapping_key && r.link.github_issue_number == number) t.rows)

unfoldable pub find_link_by_github_node : LinkTable → String → Option IssueThreadLink
find_link_by_github_node t node_id =
    to_link (find (λ r. r.link.github_issue_node_id == node_id) t.rows)

unfoldable pub get_link : LinkTable → ℕ → Option IssueThreadLink
get_link t id = to_link (find (has_id id) t.rows)

-- The UNIQUE indexes on the issue and on the thread; a thread that is NULL clashes with none.
abbrev pub link_clashes : IssueThreadLink → LinkRow → Bool
link_clashes l r =
    is_of_issue l.mapping_key l.github_issue_id r
    || elim l.discord_thread_id [ none ↦ false | some thread ↦ is_of_thread l.mapping_key thread r ]

-- `INSERT INTO issue_thread_links … RETURNING *`; `l` has the id of the row to be.
unfoldable pub insert_link : IssueThreadLink → ℕ → LinkTable → Result (IssueThreadLink × LinkTable)
insert_link l now t =
    if any (link_clashes l) t.rows
    then err unique_failed
    else ok (
      l,
      record {
        last_id = suc t.last_id;
        rows =
            t.rows
            ++ record {
              link = l;
              previous_discord_thread_ids_json = "[]";
              created_at = now;
              updated_at = now;
            }
              ∷ [];
      },
    )

-- `UPDATE issue_thread_links SET … WHERE id = ?`
abbrev pub update_link : ℕ → ℕ → (IssueThreadLink → IssueThreadLink) → LinkTable → LinkTable
update_link id now change t = record t {
  rows = update_where (has_id id) (λ r. record r { link = change r.link; updated_at = now }) t.rows;
}

abbrev pub issue_link : LinkTable → String → GitHubIssueIdentity → IssueThreadLink
issue_link t mapping_key issue = record {
  discord_thread_id = none;
  full_title = issue.title;
  github_issue_id = issue.id;
  github_issue_node_id = issue.node_id;
  github_issue_number = issue.number;
  id = suc t.last_id;
  locked = issue.locked;
  mapping_key = mapping_key;
  state = issue.state;
  status = "ACTIVE";
}

-- What an existing link takes from the issue.
abbrev pub refreshed : GitHubIssueIdentity → IssueThreadLink → IssueThreadLink
refreshed issue l = record l {
  full_title = issue.title;
  state = issue.state;
  locked = issue.locked;
}

unfoldable pub ensure_github_issue_link :
    String → GitHubIssueIdentity → ℕ → LinkTable → Result (IssueThreadLink × LinkTable)
unfolding find_link_by_github insert_link
ensure_github_issue_link mapping_key issue now t =
    elim (find_link_by_github t mapping_key issue.id) [
      | some existing ↦
          ok (refreshed issue existing, update_link existing.id now (refreshed issue) t)
      | none ↦ insert_link (issue_link t mapping_key issue) now t
    ]

-- `issue.locked` and `issue.state` are not read.
unfoldable pub create_discord_origin_link :
    String
    → String
    → String
    → GitHubIssueIdentity
    → ℕ
    → LinkTable
    → Result (IssueThreadLink × LinkTable)
unfolding find_link_by_discord insert_link
create_discord_origin_link mapping_key thread_id title issue now t =
    elim (find_link_by_discord t mapping_key thread_id) [
      | some existing ↦ ok (existing, t)
      | none ↦
          insert_link
            (record (issue_link t mapping_key issue) {
              discord_thread_id = some thread_id;
              full_title = title;
              state = open_issue;
              locked = false;
            })
            now t
    ]

-- Another link of the mapping has the thread.
abbrev pub thread_taken : LinkTable → ℕ → String → Bool
thread_taken t id thread_id = elim (find (has_id id) t.rows) [
  | none ↦ false
  | some r ↦
      any (λ other. not (has_id id other) && is_of_thread r.link.mapping_key thread_id other) t.rows
]

unfoldable pub attach_discord_thread : ℕ → String → ℕ → LinkTable → Result LinkTable
attach_discord_thread id thread_id now t =
    if thread_taken t id thread_id
    then err unique_failed
    else ok (update_link id now (λ l. record l { discord_thread_id = some thread_id }) t)

unfoldable pub update_link_state : ℕ → IssueState → Bool → ℕ → LinkTable → LinkTable
update_link_state id state locked now =
    update_link id now (λ l. record l { state = state; locked = locked })

unfoldable pub update_link_title : ℕ → String → ℕ → LinkTable → LinkTable
update_link_title id title now = update_link id now (λ l. record l { full_title = title })

unfoldable pub mark_link_status : ℕ → String → ℕ → LinkTable → LinkTable
mark_link_status id status now = update_link id now (λ l. record l { status = status })

-- `ORDER BY github_issue_number`
abbrev insert_by_number : IssueThreadLink → List IssueThreadLink → List IssueThreadLink
insert_by_number l [] = l ∷ []
insert_by_number l (m ∷ ms) =
    if leb l.github_issue_number m.github_issue_number
    then l ∷ m ∷ ms
    else m ∷ insert_by_number l ms

unfoldable pub by_number : List IssueThreadLink → List IssueThreadLink
by_number [] = []
by_number (l ∷ ls) = insert_by_number l (by_number ls)

unfoldable pub links_for_mapping : LinkTable → String → List IssueThreadLink
unfolding by_number
links_for_mapping t mapping_key =
    by_number (map (λ r. r.link) (keep (λ r. r.link.mapping_key == mapping_key) t.rows))
