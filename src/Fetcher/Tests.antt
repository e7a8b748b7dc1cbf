-- ===== src/Fetcher/Tests.antt =====
-- A fetcher with one allowed host; the world counts the requests.
use infra_joint_planner.Prelude.{ℕ, ◌+◌, String, ◌≡◌, ◌⊎◌, [], ◌∷◌, none, some}
use infra_joint_planner.Core.Errors.{ok}
use infra_joint_planner.Effects.{Effect}
use infra_joint_planner.Fetcher.{
  Parsed, HttpContent, fetch, IsAllowed, FetchedFrom, refused, fetch-IsAllowed,
}

abbrev urlparse : String → Parsed
urlparse url = record { scheme = "http"; hostname = some "edge" }

abbrev get : String → Effect ℕ HttpContent
get url w = (ok (record { content = 1 ∷ []; content_type = none; x_artifact_sha256 = none }), w + 1)

fetch-IsAllowed_example :
    ((IsAllowed urlparse get ("edge" ∷ []) "http://edge/a" → ⊥)
      × (fetch urlparse get ("edge" ∷ []) "http://edge/a" 0
          ≡ (refused urlparse get ("edge" ∷ []), 0)))
    ⊎ (IsAllowed urlparse get ("edge" ∷ []) "http://edge/a"
        × FetchedFrom urlparse get
            ("edge" ∷ [])
            (get "http://edge/a" 0).0
            (fetch urlparse get ("edge" ∷ []) "http://edge/a" 0).0
        × ((fetch urlparse get ("edge" ∷ []) "http://edge/a" 0).1 ≡ (get "http://edge/a" 0).1))
fetch-IsAllowed_example = fetch-IsAllowed urlparse get ("edge" ∷ []) "http://edge/a" 0
