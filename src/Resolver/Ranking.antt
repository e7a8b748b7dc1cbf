-- ===== src/Resolver/Ranking.antt =====
-- The orders by which candidates are ranked: ids alone, and the number of transfers before the id.
use infra_joint_planner.Prelude.{
  ℕ, ◌<◌, String, ◌≡◌, refl, ◌⊎◌, Bool, true, List, [], ◌∷◌, Option, none, some, arith, first, In,
  All,
}
use infra_joint_planner.Prelude.Text.{str_leb, str_leb_total, str_leb_trans}
use infra_joint_planner.Prelude.Sorting.{IsOrder, sort_by, first-sort_by, first-sort_by_cons}
use infra_joint_planner.Core.Errors.{ok}
use infra_joint_planner.Resolver.{ResolvedBinding, rank_leb, choose_agent, raise_no_feasible_agent}

pub str-IsOrder : IsOrder str_leb
str-IsOrder = record { total = str_leb_total; trans = str_leb_trans }

module _ {A : Type 0} (cost : A → ℕ) (id : A → String) where
  rank_total : (a b : A) → (rank_leb cost id a b ≡ true) ⊎ (rank_leb cost id b a ≡ true)
  rank_total a b = ground (arith, str_leb_total (id a) (id b))

  rank_trans :
      (a b c : A)
      → rank_leb cost id a b ≡ true
      → rank_leb cost id b c ≡ true
      → rank_leb cost id a c ≡ true
  rank_trans a b c h k = ground (arith, str_leb_trans (id a) (id b) (id c))

  pub rank-IsOrder : IsOrder (rank_leb cost id)
  rank-IsOrder = record { total = rank_total; trans = rank_trans }

  -- What an order between two ranks says.
  pub rank_leb-le :
      (a b : A)
      → rank_leb cost id a b ≡ true
      → (cost a < cost b) ⊎ (cost a ≡ cost b) × (str_leb (id a) (id b) ≡ true)
  rank_leb-le a b h = ground arith

-- A choice among candidates is one of them, and no other is below it.
pub choose_agent-least :
    (le : String → String → Bool) (order : IsOrder le) (candidates : List String)
    (b : ResolvedBinding)
    → choose_agent le candidates ≡ ok b
    → (a : String) × (b ≡ record { agent_ids = a ∷ []; deployment_id = none })
      × In a candidates
      × All (λ y. le a y ≡ true) candidates
unfolding choose_agent
choose_agent-least le order candidates b h = found (first (sort_by le candidates)) refl h
  where
    found :
        (o : Option String)
        → first (sort_by le candidates) ≡ o
        → elim o [
          | none ↦ raise_no_feasible_agent
          | some agent_id ↦ ok (record { agent_ids = agent_id ∷ []; deployment_id = none })
        ]
          ≡ ok b
        → (a : String) × (b ≡ record { agent_ids = a ∷ []; deployment_id = none })
          × In a candidates
          × All (λ y. le a y ≡ true) candidates
    found none e k = absurd (cc)
    found (some a) e k =
        let least = first-sort_by le order a candidates e in (a, cc, least.0, least.1)

-- A choice fails only if there is no candidate.
pub choose_agent-some :
    (le : String → String → Bool) (a : String) (candidates : List String)
    → In a candidates
    → (b : ResolvedBinding) × (choose_agent le candidates ≡ ok b)
unfolding choose_agent
choose_agent-some le a [] m = absurd m
choose_agent-some le a (x ∷ xs) m =
    let (y, e) = first-sort_by_cons le x xs in
    (record { agent_ids = y ∷ []; deployment_id = none }, rw (e, choose_agent))
