-- ===== src/Resolver/Agents.antt =====
-- Resolution for an operator that needs no model: `resolve_agent`, policy by policy.
use infra_joint_planner.Prelude.{
  String, ◌≡◌, refl, Bool, true, List, [], ◌∷◌, Option, none, some, arith, keep, all, In, In-keep,
  keep-In, All-In,
}
use infra_joint_planner.Prelude.Text.{elem, elem→In, str_leb}
use infra_joint_planner.Core.Errors.{
  ok, err, Exception, Message, infeasible_binding, binding_resolution_error, words, optional,
}
use infra_joint_planner.Core.Action.{
  PhysicalPolicy, auto, data_local, target_agent, target_deployment,
}
use infra_joint_planner.Resolver.{
  ResolvedBinding, transfers_needed, rank_leb, choose_agent, resolve_agent,
}
use infra_joint_planner.Resolver.Ranking.{
  str-IsOrder, rank-IsOrder, choose_agent-least, choose_agent-some,
}

abbrev pub local_everywhere : List (List String) → String → Bool
local_everywhere located agent_id = all (λ locations. elem agent_id locations) located

-- The one agent that a placement without a model names, and what the policy asks of it.
abbrev pub Fits :
    PhysicalPolicy → Option String → List String → List (List String) → String → Type 0
Fits target_agent target feasible located a = target ≡ some a
Fits target_deployment target feasible located a = ⊥
Fits data_local target feasible located a =
    (local_everywhere located a ≡ true)
    × ((y : String) → In y feasible → local_everywhere located y ≡ true → str_leb a y ≡ true)
Fits auto target feasible located a =
    (y : String) → In y feasible → rank_leb (transfers_needed located) (λ i. i) a y ≡ true

abbrev no_agent : Message
no_agent = words "no available agent satisfies the requested policy and capabilities" ∷ []

module _ (feasible : List String) (located : List (List String)) where
  abbrev Placed : PhysicalPolicy → Option String → ResolvedBinding → Type 0
  Placed p target b =
      (a : String) × (b ≡ record { agent_ids = a ∷ []; deployment_id = none })
      × In a feasible
      × Fits p target feasible located a

  pub resolve_agent_sound :
      (p : PhysicalPolicy) (target : Option String) (b : ResolvedBinding)
      → resolve_agent p target feasible located ≡ ok b
      → (a : String) × (b ≡ record { agent_ids = a ∷ []; deployment_id = none })
        × In a feasible
        × Fits p target feasible located a
  unfolding resolve_agent
  resolve_agent_sound target_agent none b h = absurd (cc)
  resolve_agent_sound target_agent (some t) b h =
      (t, ground arith, elem→In t feasible (ground arith), refl)
  resolve_agent_sound target_deployment target b h = absurd (cc)
  resolve_agent_sound data_local target b h =
      let (a, e, m, least) = choose_agent-least str_leb str-IsOrder _ b h in
      let (mf, holds) = In-keep a (local_everywhere located) feasible m in
      (
        a,
        e,
        mf,
        (
          holds,
          λ y my ly.
              All-In (λ z. str_leb a z ≡ true) y (keep (local_everywhere located) feasible) least
                (keep-In y (local_everywhere located) feasible my ly),
        ),
      )
  resolve_agent_sound auto target b h =
      let (a, e, m, least) =
        choose_agent-least _ (rank-IsOrder (transfers_needed located) (λ i. i)) feasible b h in
      (a, e, m, λ y my. All-In _ y feasible least my)

  -- A resolution fails with a binding error, and in no other way.
  pub resolve_agent_errors :
      (p : PhysicalPolicy) (target : Option String) (e : Exception)
      → resolve_agent p target feasible located ≡ err e
      → (m : Message) × (e ≡ binding_resolution_error infeasible_binding m)
  unfolding resolve_agent choose_agent
  resolve_agent_errors target_agent none e h =
      (words "explicit target agent is infeasible: " ∷ optional none ∷ [], cc)
  resolve_agent_errors target_agent (some t) e h =
      (words "explicit target agent is infeasible: " ∷ optional (some t) ∷ [], ground arith)
  resolve_agent_errors target_deployment target e h =
      (words "non-model operator cannot target a model deployment" ∷ [], cc)
  resolve_agent_errors data_local target e h = (no_agent, ground arith)
  resolve_agent_errors auto target e h = (no_agent, ground arith)

  pub resolve_agent_auto :
      (target : Option String) (a : String)
      → In a feasible
      → (b : ResolvedBinding) × (resolve_agent auto target feasible located ≡ ok b)
  unfolding resolve_agent
  resolve_agent_auto target a m = choose_agent-some _ a feasible m
