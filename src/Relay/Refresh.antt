-- ===== src/Relay/Refresh.antt =====
-- `ensureGitHubIssueLink` and `findLinkByGitHub`.
use forum_relay.Common.{
  ℕ, ◌≡◌, inl, inr, refl, String, some, any, find, arith, text_iff, string_eq, ℕ_eq, nat_eq_iff,
  Bool-cases, Option-cases,
}
use forum_relay.Common.Search.{find-update_where, find-append}
use forum_relay.Retry.{ok}
use forum_relay.Relay.{GitHubIssueIdentity, IssueThreadLink, LinkRow}
use forum_relay.Relay.Links.{
  LinkTable, is_of_issue, has_id, link_clashes, find_link_by_github, insert_link, update_link,
  issue_link, refreshed, ensure_github_issue_link,
}

module _ (mapping_key : String) (issue : GitHubIssueIdentity) (now : ℕ) (t : LinkTable) where
  refresh :
      (r : LinkRow)
      → find (is_of_issue mapping_key issue.id) t.rows ≡ some r
      → find_link_by_github (update_link r.link.id now (refreshed issue) t) mapping_key issue.id
        ≡ some (refreshed issue r.link)
  unfolding find_link_by_github
  refresh r f =
      rw
        (
          find-update_where (is_of_issue mapping_key issue.id) (has_id r.link.id)
              (λ x. record x { link = refreshed issue x.link; updated_at = now }) (λ x. refl) t.rows
              r f,
          (nat_eq_iff r.link.id r.link.id).1 refl,
        )
        refl

  -- A call that succeeds leaves one to be found by the mapping and the issue, the link that it returns,
  -- with the title, the state and the lock of the issue, whether the link was there before or not.
  pub ensure_github_issue_link-find :
      (l : IssueThreadLink) (t' : LinkTable)
      → ensure_github_issue_link mapping_key issue now t ≡ ok (l, t')
      → (find_link_by_github t' mapping_key issue.id ≡ some l)
        × (l.full_title ≡ issue.title)
        × (l.state ≡ issue.state)
        × (l.locked ≡ issue.locked)
  unfolding ensure_github_issue_link find_link_by_github insert_link
  ensure_github_issue_link-find l t' h =
      elim (Option-cases (find (is_of_issue mapping_key issue.id) t.rows)) [
        | inl e ↦ elim (Bool-cases (any (link_clashes (issue_link t mapping_key issue)) t.rows)) [
          | inl c ↦ ground arith
          | inr c ↦ ground (
            arith,
            text_iff mapping_key mapping_key,
            find-append (is_of_issue mapping_key issue.id) t.rows
                (record {
                  link = issue_link t mapping_key issue;
                  previous_discord_thread_ids_json = "[]";
                  created_at = now;
                  updated_at = now;
                })
                e,
          )
        ]
        | inr (r, e) ↦ ground (arith, refresh r e)
      ]
