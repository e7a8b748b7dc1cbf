-- ===== src/Core/State.antt =====
-- core/state.py: the static environment and the observed infrastructure state.
pub mod References
use Prim.Native.Nat.{◌^◌}
use Prim.Native.String.{len}
use Prim.Native.Char.{code}
use infra_joint_planner.Prelude.{
  ℕ, ◌*◌, String, Bool, true, false, not, ◌&&◌, ◌||◌, List, [], ◌∷◌, Option, none, some, ◌==◌, map,
  if◌then◌else◌, ltb, leb, eqb, length, all,
}
use infra_joint_planner.Prelude.Text.{elem}
use infra_joint_planner.Core.Errors.{
  Exception, Message, Result, ok, err, ◌>>=◌, ◌>>◌, require, validation_error, words, name,
}
use infra_joint_planner.Core.Json.{Float}
use infra_joint_planner.Core.Action.{nonempty}

pub record AgentSpec : Type 0 where
  pub agent_id : String
  pub device : String
  pub capabilities : List String

pub record DeploymentSpec : Type 0 where
  pub deployment_id : String
  pub agent_id : String
  pub model_id : String
  pub modalities : List String
  pub context_window : ℕ
  pub reserved_output_tokens : ℕ
  pub image_token_cost : ℕ

pub record ArtifactPlacement : Type 0 where
  pub artifact_id : String
  pub agent_id : String

pub record LinkSpec : Type 0 where
  pub source_agent_id : String
  pub target_agent_id : String
  pub bandwidth_mbps : Option Float
  pub rtt_ms : Option Float

pub record EnvironmentSpec : Type 0 where
  pub agents : List AgentSpec
  pub deployments : List DeploymentSpec
  pub initial_placements : List ArtifactPlacement
  pub links : List LinkSpec

pub record AgentRuntimeState : Type 0 where
  pub agent_id : String
  pub available : Bool
  pub in_flight : ℕ
  pub queue_depth : Option ℕ

pub record DeploymentRuntimeState : Type 0 where
  pub deployment_id : String
  pub available : Bool

pub record ArtifactRuntimeState : Type 0 where
  pub artifact_id : String
  pub locations : List String
  pub media_type : Option String
  pub size_bytes : Option ℕ
  pub sha256_hex : Option String

pub record LinkRuntimeState : Type 0 where
  pub source_agent_id : String
  pub target_agent_id : String
  pub available : Bool
  pub bandwidth_mbps : Option Float
  pub rtt_ms : Option Float

-- A moment, and the offset of its timezone in minutes, a sign and a magnitude, if it has one.
pub record Datetime : Type 0 where
  pub instant : ℕ
  pub utc_offset : Option (Bool × ℕ)

pub record InfrastructureState : Type 0 where
  pub agents : List AgentRuntimeState
  pub deployments : List DeploymentRuntimeState
  pub artifacts : List ArtifactRuntimeState
  pub links : List LinkRuntimeState
  pub observed_at : Datetime

-- A validator that raises ValueError ends in pydantic's ValidationError.
abbrev pub invalid : String → Exception
invalid s = validation_error (words s ∷ [])

output_budget_fits_context : DeploymentSpec → Result DeploymentSpec
output_budget_fits_context d =
    if leb d.context_window d.reserved_output_tokens
    then err (invalid "reserved output tokens must be smaller than context window")
    else if not (elem "text" d.modalities)
    then err (invalid "model deployment must support text prompts")
    else ok d

unfoldable pub check_deployment : DeploymentSpec → Result DeploymentSpec
unfolding output_budget_fits_context
check_deployment d = do
  require (nonempty d.deployment_id && nonempty d.agent_id && nonempty d.model_id)
      (invalid "an identifier is empty")
  require (ltb 0 d.context_window && ltb 0 d.reserved_output_tokens && ltb 0 d.image_token_cost)
      (invalid "a token limit is not positive")
  output_budget_fits_context d

-- `x > 0` and `x >= 0` of a 64-bit float: no sign bit and no NaN, or the negative zero.
unfoldable pub is_positive : Float → Bool
is_positive f = ltb 0 f.bits && leb f.bits (2047 * 2 ^ 52)

unfoldable pub is_nonnegative : Float → Bool
is_nonnegative f = leb f.bits (2047 * 2 ^ 52) || eqb f.bits (2 ^ 63)

abbrev pub all_some : {A : Type 0} → (A → Bool) → Option A → Bool
all_some p none = true
all_some p (some a) = p a

unfoldable pub check_link : LinkSpec → Result LinkSpec
unfolding is_positive is_nonnegative
check_link l = do
  require (nonempty l.source_agent_id && nonempty l.target_agent_id)
      (invalid "an identifier is empty")
  require (all_some is_positive l.bandwidth_mbps && all_some is_nonnegative l.rtt_ms)
      (invalid "a link measurement is out of range")
  require (not (l.source_agent_id == l.target_agent_id))
      (invalid "a link must connect distinct agents")
  ok l

-- `set(xs)` as a list: each element once.
unfoldable pub distinct : List String → List String
distinct [] = []
distinct (x ∷ xs) = let rest = distinct xs in if elem x rest then rest else x ∷ rest

-- `len(xs) == len(set(xs))`
unfoldable pub is_unique : List String → Bool
unfolding distinct
is_unique xs = eqb (length xs) (length (distinct xs))

-- The first element of the list that fails the test, in the order of the loop.
unfoldable pub first_failing : {A : Type 0} → (A → Bool) → List A → Option A
first_failing p [] = none
first_failing p (x ∷ xs) = let rest = first_failing p xs in if p x then rest else some x

abbrev pub none_failing : {A : Type 0} → (A → Message) → Option A → Result (Unit {0})
none_failing message none = ok tt
none_failing message (some a) = err (validation_error (message a))

unfoldable pub references_exist : EnvironmentSpec → Result EnvironmentSpec
references_exist e =
    let agent_ids = map (λ (a : AgentSpec). a.agent_id) e.agents in
    let deployment_ids = map (λ (d : DeploymentSpec). d.deployment_id) e.deployments in
    do
      require (is_unique agent_ids) (invalid "agent_id values must be unique")
      require (is_unique deployment_ids) (invalid "deployment_id values must be unique")
      none_failing (λ d. words "unknown deployment agent: " ∷ name d.agent_id ∷ [])
          (first_failing (λ (d : DeploymentSpec). elem d.agent_id agent_ids) e.deployments)
      none_failing (λ p. words "unknown placement agent: " ∷ name p.agent_id ∷ [])
          (first_failing (λ (p : ArtifactPlacement). elem p.agent_id agent_ids)
            e.initial_placements)
      none_failing (λ l. words "link references an unknown agent" ∷ [])
          (first_failing
            (λ (l : LinkSpec). elem l.source_agent_id agent_ids && elem l.target_agent_id agent_ids)
            e.links)
      ok e

abbrev hex_digit : ℕ → Bool
hex_digit n = (leb 48 n && leb n 57) || (leb 97 n && leb n 102)

-- The pattern `^[0-9a-f]{64}$`
unfoldable pub is_hex : String → Bool
is_hex String.[] = true
is_hex (String.◌∷◌ c s) = let rest = is_hex s in hex_digit (code c) && rest

abbrev is_checksum : Option String → Bool
is_checksum none = true
is_checksum (some s) = eqb (len s) 64 && is_hex s

unfoldable pub check_artifact_state : ArtifactRuntimeState → Result ArtifactRuntimeState
check_artifact_state a = do
  require (nonempty a.artifact_id) (invalid "an identifier is empty")
  require (is_checksum a.sha256_hex) (invalid "a checksum is not 64 hexadecimal digits")
  require (is_unique a.locations) (invalid "artifact locations must be unique")
  ok a

unfoldable pub timestamp_is_timezone_aware : Datetime → Result Datetime
timestamp_is_timezone_aware t = elim t.utc_offset [
  | none ↦ err (invalid "observed_at must include a timezone")
  | some _ ↦ ok t
]
