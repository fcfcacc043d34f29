-- ===== src/Media/Content.antt =====
-- media/safe-download.ts: what becomes of the response: its failure, its size, and the type of its bytes.
use forum_relay.Common.{
  ℕ, zero, suc, ◌+◌, ◌%◌, map, String, Bool, true, false, not, ◌&&◌, ◌||◌, List, [], ◌∷◌, ◌++◌,
  Option, none, some, length, take, ◌==◌, string_eq, ℕ_eq, leb, ltb, if◌then◌else◌,
}
use forum_relay.Retry.{Result, ok, err, Thrown, RelayFailure, FailureCategory, failure, ◌>>=◌}
use forum_relay.Media.{
  Url, Response, Request, Network, follow_redirects, throw_failure, max_redirects,
}

-- `mediaFetchFailure`; the status is not part of the message here.
unfoldable pub media_fetch_failure : ℕ → RelayFailure
media_fetch_failure status =
    let message : String = "GitHub media download failed." in
    if status == 401 || status == 403
    then failure message FailureCategory.authentication "MEDIA_AUTH"
    else if status == 404 || status == 410
    then failure message FailureCategory.not_found "MEDIA_NOT_FOUND"
    else if leb 400 status && ltb status 500 && not (status == 408) && not (status == 429)
    then failure message FailureCategory.invalid "MEDIA_FETCH"
    else failure message
        (if status == 429 then FailureCategory.rate_limit else FailureCategory.temporary)
        "MEDIA_FETCH"

abbrev pub too_large {ℓ} : {A : Type ℓ} → Result A
too_large =
    throw_failure "GitHub media exceeds the Discord upload limit." FailureCategory.invalid
      "MEDIA_TOO_LARGE"

-- The loop over the chunks: what is written so far, and its size.
unfoldable pub read_chunks : ℕ → ℕ → List ℕ → List (List ℕ) → Result (ℕ × List ℕ)
read_chunks max_bytes size written [] = ok (size, written)
read_chunks max_bytes size written (chunk ∷ chunks) =
    let rest = read_chunks max_bytes (size + length chunk) (written ++ chunk) chunks in
    if ltb max_bytes (size + length chunk) then too_large else rest

-- The bytes begin with those.
abbrev pub begins : List ℕ → List ℕ → Bool
begins [] bytes = true
begins (x ∷ xs) [] = false
begins (x ∷ xs) (b ∷ bytes) = b == x && begins xs bytes

abbrev drop : ℕ → List ℕ → List ℕ
drop zero bytes = bytes
drop (suc n) [] = []
drop (suc n) (b ∷ bytes) = drop n bytes

-- `toString("ascii")`, which unsets the highest bit of each byte.
abbrev ascii : List ℕ → List ℕ
ascii = map (λ b. b % 128)

unfoldable pub sniff_content_type : List ℕ → Option String
sniff_content_type bytes =
    if begins (137 ∷ 80 ∷ 78 ∷ 71 ∷ 13 ∷ 10 ∷ 26 ∷ 10 ∷ []) bytes
    then some "image/png"
    else if begins (255 ∷ 216 ∷ 255 ∷ []) bytes
    then some "image/jpeg"
    else if begins (71 ∷ 73 ∷ 70 ∷ 56 ∷ []) (ascii bytes)
    then some "image/gif"
    else if begins (82 ∷ 73 ∷ 70 ∷ 70 ∷ []) (ascii bytes)
        && begins (87 ∷ 69 ∷ 66 ∷ 80 ∷ []) (ascii (drop 8 bytes))
    then some "image/webp"
    else if begins (37 ∷ 80 ∷ 68 ∷ 70 ∷ []) (ascii bytes)
    then some "application/pdf"
    else none

-- `declared` is the media type of the header, without parameters, trimmed and in lower case. An empty
-- one is no type, but is what is returned when nothing is detected.
unfoldable pub verified_content_type : List ℕ → Option String → Result String
unfolding sniff_content_type
verified_content_type bytes declared = elim (sniff_content_type (take 16 bytes)) [
  | none ↦ elim declared [ none ↦ ok "application/octet-stream" | some d ↦ ok d ]
  | some detected ↦ elim declared [
    | none ↦ ok detected
    | some d ↦
        if not (d == "") && not (d == "application/octet-stream") && not (detected == d)
        then throw_failure "GitHub media MIME type does not match its bytes."
            FailureCategory.invalid "MEDIA_MIME_MISMATCH"
        else ok detected
  ]
]

pub record DownloadedFile : Type 0 where
  pub content_type : String
  pub content : List ℕ
  pub size : ℕ
  pub url : Url

abbrev pub is_ok_status : ℕ → Bool
is_ok_status status = leb 200 status && ltb status 300

module _ (net : Network) (media_type : String → String) where
  abbrev pub declared_type : Option String → Option String
  declared_type none = none
  declared_type (some s) = some (media_type s)

  -- What follows the loop of redirects; `media_type` is the normalisation of the header.
  unfoldable pub save_response : ℕ → Url × Response → Result DownloadedFile
  unfolding media_fetch_failure read_chunks verified_content_type
  save_response max_bytes (url, response) = elim response.body [
    | none ↦ err (Thrown.relay (media_fetch_failure response.status))
    | some chunks ↦
        if not (is_ok_status response.status)
        then err (Thrown.relay (media_fetch_failure response.status))
        else if ltb max_bytes response.content_length
        then too_large
        else read_chunks max_bytes 0 [] chunks >>= λ read.
            verified_content_type read.1 (declared_type response.content_type) >>= λ content_type.
            ok (record { content_type = content_type; content = read.1; size = read.0; url = url })
  ]

  unfoldable pub download_github_media : Bool → ℕ → Url → List Request × Result DownloadedFile
  unfolding follow_redirects save_response
  download_github_media authorization max_bytes url =
      let reached = follow_redirects net authorization max_redirects url in
      (reached.0, reached.1 >>= save_response max_bytes)
