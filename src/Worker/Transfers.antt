-- ===== src/Worker/Transfers.antt =====
-- worker/server.py: what putting and pulling an artifact leaves in the store.
use mathlib.Core.Path.{subst}
use infra_joint_planner.Prelude.{
  String, ◌≡◌, refl, inl, inr, true, Option, none, some, Bool-cases, eq_iff,
}
use infra_joint_planner.Core.Errors.{Result, ok, err}
use infra_joint_planner.Model.{Bytes}
use infra_joint_planner.Store.{StoredArtifact, IsValid, create, created}
use infra_joint_planner.Store.Interface.{ArtifactStore, IsLawful}
use infra_joint_planner.Effects.{continue, ◌>>=◌}
use infra_joint_planner.Api.{PullArtifactRequest, PullArtifactResponse}
use infra_joint_planner.Worker.{Held, stored, media_type_of}
use infra_joint_planner.Worker.Artifacts.{
  PutRequest, FetchedArtifact, ArtifactFetcher, matches, or_else, respond, keep_checked,
  put_artifact,
}

-- The expected checksum, if there is one.
abbrev pub Matches : Option String → String → Type 0
Matches none sha256_hex = Unit
Matches (some expected) sha256_hex = sha256_hex ≡ expected

matches-Matches :
    (expected : Option String) (s : String) → matches expected s ≡ true → Matches expected s
matches-Matches none s h = tt
matches-Matches (some e) s h = (eq_iff s e).0 h

module _ {S : Type 0} (store : ArtifactStore S) (sha256 : Bytes → String) where
  -- The store holds the content under the identifier, with its media type and its checksum, which is
  -- the expected one, and the response tells the identifier, the size and the checksum.
  pub record Holds (s : S) (artifact_id media_type : String) (content : Bytes)
      (expected : Option String) (response : PullArtifactResponse) : Type 0 where
    pub artifact : StoredArtifact
    pub held : store.get artifact_id s ≡ ok artifact
    pub content_held : artifact.content ≡ content
    pub media_type_held : artifact.media_type ≡ media_type
    pub checksum : artifact.sha256_hex ≡ sha256 content
    pub expected_matches : Matches expected (sha256 content)
    pub told : response ≡ respond artifact

module _ {S W : Type 0} (store : ArtifactStore S) (sha256 : Bytes → String) where
  -- Either the artifact is in the store behind, or an exception has left the store as it was.
  abbrev pub Outcome :
      S → String → String → Bytes → Option String → Result PullArtifactResponse × Held S W → Type 0
  Outcome s artifact_id media_type content expected (ok response, h) =
      Holds store sha256 h.store artifact_id media_type content expected response
  Outcome s artifact_id media_type content expected (err e, h) = h.store ≡ s

  -- What pulling leaves: the content and the media type are what the fetcher has answered for the
  -- request's address, and the checksum that is expected is the request's or else the answer's.
  abbrev pub PullOutcome :
      Held S W
      → ArtifactFetcher W
      → PullArtifactRequest
      → Result PullArtifactResponse × Held S W
      → Type 0
  PullOutcome h fetch request (ok response, h') =
      (fetched : FetchedArtifact) × ((fetch request.source_url h.world).0 ≡ ok fetched)
      × Holds store sha256 h'.store request.artifact_id fetched.media_type fetched.content
          (or_else request.expected_sha256 fetched.sha256_hex) response
  PullOutcome h fetch request (err e, h') = h'.store ≡ h.store

  module _ (lawful : IsLawful sha256 store) where
    kept-Outcome :
        (a : StoredArtifact) (expected : Option String) (r : Result S) (h : Held S W)
        → IsValid sha256 a
        → store.put a h.store ≡ r
        → a.sha256_hex ≡ sha256 a.content
        → Matches expected a.sha256_hex
        → Outcome h.store a.artifact_id a.media_type a.content expected
            (continue (stored store r h) (λ _ h'. (ok (respond a), h')))
    kept-Outcome a expected (ok s) h v p c m = record {
      artifact = a;
      held = lawful.put-get a h.store s v p;
      content_held = refl;
      media_type_held = refl;
      checksum = c;
      expected_matches = rw (← c) m;
      told = refl;
    }
    kept-Outcome a expected (err e) h v p c m = refl

    keep_checked-Outcome :
        (a : StoredArtifact) (expected : Option String) (h : Held S W)
        → IsValid sha256 a
        → a.sha256_hex ≡ sha256 a.content
        → Outcome h.store a.artifact_id a.media_type a.content expected
            (keep_checked store a expected h)
    keep_checked-Outcome a expected h v c = elim (Bool-cases (matches expected a.sha256_hex)) [
      | inl m ↦ rw m (
          kept-Outcome a expected (store.put a h.store) h v refl c
            (matches-Matches expected a.sha256_hex m))
      | inr m ↦ rw m refl
    ]

    checked-Outcome :
        (id media_type : String) (content : Bytes) (expected : Option String) (h : Held S W)
        (r : Result StoredArtifact)
        → create sha256 id media_type content ≡ r
        → Outcome h.store id media_type content expected
            (continue (r, h) (λ a. keep_checked store a expected))
    checked-Outcome id media_type content expected h (err e) c = refl
    checked-Outcome id media_type content expected h (ok a) c =
        let (v, i, k, s, m) = created sha256 id media_type content a c in
        subst (λ x. Outcome h.store x media_type content expected (keep_checked store a expected h))
          i
          (subst
            (λ x.
              Outcome h.store a.artifact_id x content expected (keep_checked store a expected h))
            m
            (subst
              (λ x.
                Outcome h.store a.artifact_id a.media_type x expected
                  (keep_checked store a expected h))
              k (keep_checked-Outcome a expected h v (rw k s))))

    -- A request that puts an artifact either raises and leaves the store as it was, or leaves the
    -- store returning the request's content under the identifier, with the media type of the request's
    -- header and with its checksum, which is the announced one, and answers its size and checksum. The store has to be lawful.
    pub put_artifact-Outcome :
        (artifact_id : String) (request : PutRequest) (h : Held S W)
        → Outcome h.store artifact_id
            (media_type_of request.content_type)
            request.body
            request.x_artifact_sha256
            (put_artifact store sha256 artifact_id request h)
    unfolding put_artifact
    put_artifact-Outcome artifact_id request h =
        checked-Outcome artifact_id (media_type_of request.content_type) request.body
          request.x_artifact_sha256 h _ refl
