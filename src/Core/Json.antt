-- ===== src/Core/Json.antt =====
-- The values of a JSON document, which the contracts carry as `Any` and `dict[str, Any]`.
-- A float is its 64 bits; the operations on floats are not part of this module.
use infra_joint_planner.Prelude.{
  ℕ, String, Bool, List, [], ◌∷◌, Option, none, some, ◌==◌, if◌then◌else◌,
}

pub record Float : Type 0 where
  pub bits : ℕ

mutual
  pub data Json : Type 0 where
    null : Json
    bool : Bool → Json
    -- an integer: its sign (true below zero) and its magnitude
    int : Bool → ℕ → Json
    float : Float → Json
    str : String → Json
    arr : Items → Json
    obj : Fields → Json

  pub data Items : Type 0 where
    nil : Items
    cons : Json → Items → Items

  pub data Fields : Type 0 where
    end : Fields
    field : String → Json → Fields → Fields

-- `d.get(k)` of an object; keys are unique in a decoded object.
unfoldable pub get_field : String → Fields → Option Json
get_field k end = none
get_field k (field j v d) = if j == k then some v else get_field k d

unfoldable pub names_array : List String → Items
names_array [] = nil
names_array (x ∷ xs) = cons (str x) (names_array xs)
