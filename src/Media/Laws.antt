-- ===== src/Media/Laws.antt =====
-- Which requests a download makes, and how much it writes.
use forum_relay.Common.{
  ℕ, zero, suc, ◌+◌, ◌≤◌, ◌≡◌, ◌⊎◌, inl, inr, String, Bool, true, false, ◌&&◌, List, [], ◌∷◌, ◌++◌,
  length, string_eq, ℕ_eq, All, arith, text_iff, length-append, not-any→All, Option-cases,
}
use forum_relay.Common.Texts.{ends_with}
use forum_relay.Retry.{Result-cases, ok}
use forum_relay.Media.{
  Network, Url, Request, is_allowed_host, should_send_github_authorization, forbids,
  validate_remote_url, next_url, follow_redirects, max_redirects,
}
use forum_relay.Media.Content.{
  declared_type, read_chunks, verified_content_type, save_response, download_github_media,
  DownloadedFile,
}

module _ (net : Network) where
  -- A request that the relay may make.
  pub record IsSafe (r : Request) : Type 0 where
    pub https : r.url.protocol ≡ "https:"
    pub allowed : is_allowed_host net r.url.hostname ≡ true
    pub addresses : All (λ a. forbids net a ≡ false) (net.lookup r.url.hostname)
    pub secret :
        (r.authorized ≡ false)
        ⊎ ((net.lower r.url.hostname ≡ "github.com")
            ⊎ (ends_with ".githubusercontent.com" (net.lower r.url.hostname) ≡ true))

  request-IsSafe :
      (authorization : Bool) (url : Url)
      → validate_remote_url net url ≡ ok tt
      → IsSafe (record {
        url = url;
        authorized = authorization && should_send_github_authorization net url;
      })
  unfolding validate_remote_url should_send_github_authorization
  request-IsSafe authorization url h = record {
    https = ground (arith, text_iff url.protocol "https:");
    allowed = ground (arith, h);
    addresses = not-any→All (forbids net) (net.lookup url.hostname) (ground (arith, h));
    secret = ground (arith, text_iff (net.lower url.hostname) "github.com");
  }

  -- The requests of a loop that may follow so many redirects.
  abbrev AreSafe : ℕ → List Request → Type 0
  AreSafe left rs = All IsSafe rs × (length rs ≤ suc left)

  follow_redirects-AreSafe :
      (authorization : Bool) (left : ℕ) (url : Url)
      → AreSafe left (follow_redirects net authorization left url).0
  unfolding follow_redirects
  follow_redirects-AreSafe authorization zero url =
      elim (Result-cases (validate_remote_url net url)) [
        | inl (x, e) ↦ ground (arith, request-IsSafe authorization url e)
        | inr (f, e) ↦ ground (arith, e)
      ]
  follow_redirects-AreSafe authorization (suc left) url =
      elim (Result-cases (validate_remote_url net url)) [
        | inl (x, e) ↦
            let response =
              net.fetch url (authorization && should_send_github_authorization net url) in
            elim (Result-cases (next_url net response url)) [
              | inl (next, f) ↦ ground (
                arith,
                e,
                f,
                request-IsSafe authorization url e,
                follow_redirects-AreSafe authorization left next,
              )
              | inr (g, f) ↦ ground (arith, e, f, request-IsSafe authorization url e)
            ]
        | inr (f, e) ↦ ground (arith, e)
      ]

  -- Wherever the redirects of a download lead, at most six requests are made; each is made over HTTPS to
  -- a host of the list whose name resolves to no forbidden address; and the authorization is sent only
  -- to github.com and to names that end in .githubusercontent.com.
  pub download_github_media-IsSafe :
      (media_type : String → String) (authorization : Bool) (max_bytes : ℕ) (url : Url)
      → All IsSafe (download_github_media net media_type authorization max_bytes url).0
        × (length (download_github_media net media_type authorization max_bytes url).0 ≤ 6)
  unfolding download_github_media
  download_github_media-IsSafe media_type authorization max_bytes url =
      follow_redirects-AreSafe authorization max_redirects url

read_chunks-bound :
    (max_bytes size : ℕ) (written : List ℕ) (chunks : List (List ℕ)) (total : ℕ) (bytes : List ℕ)
    → size ≡ length written
    → size ≤ max_bytes
    → read_chunks max_bytes size written chunks ≡ ok (total, bytes)
    → (total ≡ length bytes) × (total ≤ max_bytes)
unfolding read_chunks
read_chunks-bound max_bytes size written [] total bytes s h e = ground (arith, e)
read_chunks-bound max_bytes size written (chunk ∷ chunks) total bytes s h e = ground (
  arith,
  length-append written chunk,
  read_chunks-bound max_bytes (size + length chunk) (written ++ chunk) chunks total bytes,
)

-- A file that is downloaded has the size that is reported, and at most the largest one, whatever length
-- the response declared.
pub download_github_media-bound :
    (net : Network) (media_type : String → String) (authorization : Bool) (max_bytes : ℕ)
    (url : Url) (file : DownloadedFile)
    → (download_github_media net media_type authorization max_bytes url).1 ≡ ok file
    → (file.size ≡ length file.content) × (file.size ≤ max_bytes)
unfolding download_github_media save_response
download_github_media-bound net media_type authorization max_bytes url file h =
    elim (Result-cases (follow_redirects net authorization max_redirects url).1) [
      | inr (g, e) ↦ ground (arith, e, h)
      | inl ((last, response), e) ↦ elim (Option-cases response.body) [
        | inl b ↦ ground (arith, e, b, h)
        | inr (chunks, b) ↦ elim (Result-cases (read_chunks max_bytes 0 [] chunks)) [
          | inr (g, r) ↦ ground (arith, e, b, r, h)
          | inl ((size, bytes), r) ↦
              elim (Result-cases (
                verified_content_type bytes (declared_type net media_type response.content_type))) [
                  | inr (g, v) ↦ ground (arith, e, b, r, v, h)
                  | inl (t, v) ↦
                      ground
                        (arith, e, b, r, v, h, read_chunks-bound max_bytes 0 [] chunks size bytes)
                ]
        ]
      ]
    ]
