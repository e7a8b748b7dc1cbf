-- ===== src/Fetcher.antt =====
-- worker/artifact_fetcher.py: the fetcher that downloads from allowed hosts only. The parser of URLs and
-- the HTTP client are parameters.
mod Tests
use infra_joint_planner.Prelude.{
  ℕ, String, ◌≡◌, refl, ◌⊎◌, inl, inr, Bool, true, false, not, ◌&&◌, List, [], ◌∷◌, Option, none,
  some, In, Bool-cases, arith, if◌then◌else◌,
}
use infra_joint_planner.Prelude.Text.{elem, elem→In, In→elem}
use infra_joint_planner.Core.Errors.{Exception, Result, ok, err, words, require, value_error}
use infra_joint_planner.Model.{Bytes}
use infra_joint_planner.Effects.{Effect, pure, raise, lift, ◌>>=◌, ◌>>◌, continue}
use infra_joint_planner.Worker.{media_type_of}
use infra_joint_planner.Worker.Artifacts.{FetchedArtifact, ArtifactFetcher}

-- `urlparse`
pub record Parsed : Type 0 where
  pub scheme : String
  pub hostname : Option String

-- An answer whose status is not an error; `get` raises httpx's exceptions, also for such a status.
pub record HttpContent : Type 0 where
  pub content : Bytes
  pub content_type : Option String
  pub x_artifact_sha256 : Option String

abbrev pub fetched_of : HttpContent → FetchedArtifact
fetched_of response = record {
  content = response.content;
  media_type = media_type_of response.content_type;
  sha256_hex = response.x_artifact_sha256;
}

abbrev pub is_member : Option String → List String → Bool
is_member none hosts = false
is_member (some host) hosts = elem host hosts

module _ {W : Type 0} (urlparse : String → Parsed) (get : String → Effect W HttpContent)
    (allowed_hosts : List String) where
  abbrev no_hosts : List String → Bool
  no_hosts [] = true
  no_hosts (h ∷ hosts) = false

  -- `HttpArtifactFetcher.__init__`
  unfoldable pub check_fetcher : Result (Unit {0})
  check_fetcher =
      require (not (no_hosts allowed_hosts))
        (value_error (words "allowed_hosts must not be empty" ∷ []))

  abbrev pub is_allowed : String → Bool
  is_allowed source_url =
      let parsed = urlparse source_url in
      elem parsed.scheme ("http" ∷ "https" ∷ []) && is_member parsed.hostname allowed_hosts

  -- `HttpArtifactFetcher.fetch`
  unfoldable pub fetch : ArtifactFetcher W
  fetch source_url =
      if is_allowed source_url
      then (do response ← get source_url; pure (fetched_of response))
      else raise (value_error (words "artifact source URL is not allowed" ∷ []))

  -- The URL is http or https, and its host is one of the allowed ones.
  pub record IsAllowed (source_url : String) : Type 0 where
    pub host : String
    pub scheme : In (urlparse source_url).scheme ("http" ∷ "https" ∷ [])
    pub host_eq : (urlparse source_url).hostname ≡ some host
    pub listed : In host allowed_hosts

  member-host :
      (o : Option String)
      → is_member o allowed_hosts ≡ true
      → (h : String) × (o ≡ some h) × In h allowed_hosts
  member-host none k = absurd (cc)
  member-host (some h) k = (h, refl, elem→In h allowed_hosts k)

  allowed : (source_url : String) → is_allowed source_url ≡ true → IsAllowed source_url
  allowed source_url k =
      let (h, e, m) = member-host (urlparse source_url).hostname (ground arith) in
      record {
        host = h;
        scheme = elem→In (urlparse source_url).scheme ("http" ∷ "https" ∷ []) (ground arith);
        host_eq = e;
        listed = m;
      }

  IsAllowed-allowed : (source_url : String) → IsAllowed source_url → is_allowed source_url ≡ true
  IsAllowed-allowed source_url a =
      let listed = In→elem a.host allowed_hosts a.listed in
      let known = In→elem (urlparse source_url).scheme ("http" ∷ "https" ∷ []) a.scheme in
      rw (known, a.host_eq) listed

  -- What the fetcher gives of an answer: its content, the media type of its header and the checksum
  -- that it announces; the exception of a request is the fetcher's.
  abbrev pub FetchedFrom : Result HttpContent → Result FetchedArtifact → Type 0
  FetchedFrom (ok response) (ok fetched) =
      (fetched.content ≡ response.content)
      × (fetched.media_type ≡ media_type_of response.content_type)
      × (fetched.sha256_hex ≡ response.x_artifact_sha256)
  FetchedFrom (err e) (err e') = e' ≡ e
  FetchedFrom _ _ = ⊥

  abbrev pub refused : Result FetchedArtifact
  refused = err (value_error (words "artifact source URL is not allowed" ∷ []))

  -- Where the URL's scheme is http or https and its host is an allowed one, the fetcher makes one
  -- request for the URL, gives what is answered, and leaves the world as the request does. For any
  -- other URL it raises, and makes no request.
  pub fetch-IsAllowed :
      (source_url : String) (w : W)
      → ((IsAllowed source_url → ⊥) × (fetch source_url w ≡ (refused, w)))
        ⊎ (IsAllowed source_url
            × FetchedFrom (get source_url w).0 (fetch source_url w).0
            × ((fetch source_url w).1 ≡ (get source_url w).1))
  unfolding fetch
  fetch-IsAllowed source_url w = elim (Bool-cases (is_allowed source_url)) [
    | inl k ↦
        (let (f, u) = answered (get source_url w) in inr (allowed source_url k, rw k f, rw k u))
    | inr k ↦ inl ((λ a. let k' = IsAllowed-allowed source_url a in absurd (cc)), rw k refl)
  ]
    where
      answered :
          (r : Result HttpContent × W)
          → FetchedFrom r.0 (continue r λ response. pure (fetched_of response)).0
            × ((continue r λ response. pure (fetched_of response)).1 ≡ r.1)
      answered (ok x, w') = ((refl, refl, refl), refl)
      answered (err e, w') = (refl, refl)
