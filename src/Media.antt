-- ===== src/Media.antt =====
-- media/safe-download.ts: the download of a file that a GitHub issue shows. Parameters, in the record
-- `Network`: `toLocaleLowerCase`, `isIP`, the numbers between the dots of an address, DNS, `fetch`, and
-- `new URL(location, base)`. The file system is left out: the result is the bytes that are written.
pub mod Address
pub mod Content
pub mod Laws
use Prim.Native.String.{◌++◌ as ◌<>◌}
use forum_relay.Common.{
  ℕ, zero, suc, ◌+◌, String, Bool, true, false, not, ◌&&◌, ◌||◌, List, [], ◌∷◌, ◌++◌, Option, none,
  some, length, any, take, ◌==◌, string_eq, ℕ_eq, leb, ltb, if◌then◌else◌,
}
use forum_relay.Common.Texts.{ends_with}
use forum_relay.Retry.{Result, ok, err, Thrown, RelayFailure, FailureCategory, failure, ◌>>=◌}
use forum_relay.Media.Address.{is_forbidden_address}

pub record Url : Type 0 where
  pub protocol : String
  pub hostname : String
  pub has_jwt : Bool

pub record Response : Type 0 where
  pub status : ℕ
  pub location : Option String
  pub content_length : ℕ
  pub content_type : Option String
  pub body : Option (List (List ℕ))

-- A request that was made, and whether it carried the authorization.
pub record Request : Type 0 where
  pub url : Url
  pub authorized : Bool

-- What is outside the repository. `lookup` and `fetch` answer alike each time and do not throw.
pub record Network : Type 0 where
  pub lower : String → String
  pub is_ip : String → ℕ
  pub octets : String → List ℕ
  pub lookup : String → List String
  pub fetch : Url → Bool → Response
  pub resolve : String → Url → Option Url

abbrev pub allowed_github_media_hosts : List String
allowed_github_media_hosts =
    "github.com" ∷ "github-production-user-asset-6210df.s3.amazonaws.com"
    ∷ "objects.githubusercontent.com" ∷ "private-user-images.githubusercontent.com"
    ∷ "raw.githubusercontent.com" ∷ "user-images.githubusercontent.com" ∷ []

abbrev pub max_redirects : ℕ
max_redirects = 5

abbrev pub throw_failure {ℓ} : {A : Type ℓ} → String → FailureCategory → String → Result A
throw_failure message category code = err (Thrown.relay (failure message category code))

module _ (net : Network) where
  abbrev pub is_allowed_host : String → Bool
  is_allowed_host hostname = any (λ h. h == net.lower hostname) allowed_github_media_hosts

  -- `parsed` is the URL, if the text is one.
  unfoldable pub is_recognized_github_media_url : Option Url → Bool
  is_recognized_github_media_url none = false
  is_recognized_github_media_url (some url) =
      url.protocol == "https:" && is_allowed_host url.hostname

  unfoldable pub should_send_github_authorization : Url → Bool
  should_send_github_authorization url =
      let hostname = net.lower url.hostname in
      if hostname == "private-user-images.githubusercontent.com" && url.has_jwt
      then false
      else hostname == "github.com" || ends_with ".githubusercontent.com" hostname

  abbrev pub forbids : String → Bool
  forbids address = is_forbidden_address net.lower net.is_ip net.octets address

  unfoldable pub validate_remote_url : Url → Result {0} Unit
  validate_remote_url url =
      if not (url.protocol == "https:") || not (is_allowed_host url.hostname)
      then throw_failure "Only recognized GitHub-hosted HTTPS media may be fetched."
          FailureCategory.invalid "MEDIA_HOST"
      else if length (net.lookup url.hostname) == 0 || any forbids (net.lookup url.hostname)
      then throw_failure "GitHub media resolved to a forbidden network address."
          FailureCategory.invalid "MEDIA_SSRF"
      else ok tt

  abbrev pub is_redirect : ℕ → Bool
  is_redirect status = any (λ s. s == status) (301 ∷ 302 ∷ 303 ∷ 307 ∷ 308 ∷ [])

  abbrev pub redirect_failed {ℓ} : {A : Type ℓ} → Result A
  redirect_failed =
      throw_failure "GitHub media redirect chain is invalid or too long." FailureCategory.invalid
        "MEDIA_REDIRECT"

  -- `new URL(location, currentUrl)` of a redirect; an empty or missing location is refused.
  abbrev pub next_url : Response → Url → Result Url
  next_url response current = elim response.location [
    | none ↦ redirect_failed
    | some location ↦
        if location == "" then redirect_failed else elim (net.resolve location current) [
          | none ↦ err (Thrown.plain "Invalid URL")
          | some url ↦ ok url
        ]
  ]

  -- The requests made, and the URL and response that end the loop. `left` counts the redirects that may
  -- still be followed; `authorization` says that there is one to send.
  unfoldable pub follow_redirects : Bool → ℕ → Url → List Request × Result (Url × Response)
  unfolding validate_remote_url should_send_github_authorization
  follow_redirects authorization zero current = elim (validate_remote_url current) [
    | err e ↦ ([], err e)
    | ok _ ↦
        let authorized = authorization && should_send_github_authorization current in
        let response = net.fetch current authorized in
        let made : Request = record { url = current; authorized = authorized } in
        if is_redirect response.status
        then (made ∷ [], redirect_failed)
        else (made ∷ [], ok (current, response))
  ]
  follow_redirects authorization (suc left) current = elim (validate_remote_url current) [
    | err e ↦ ([], err e)
    | ok _ ↦
        let authorized = authorization && should_send_github_authorization current in
        let response = net.fetch current authorized in
        let made : Request = record { url = current; authorized = authorized } in
        if is_redirect response.status
        then elim (next_url response current) [
          | err e ↦ (made ∷ [], err e)
          | ok next ↦ let rest = follow_redirects authorization left next in (made ∷ rest.0, rest.1)
        ]
        else (made ∷ [], ok (current, response))
  ]
