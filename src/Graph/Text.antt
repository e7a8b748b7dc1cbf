-- ===== src/Graph/Text.antt =====
-- The identifiers of trace events: `f"{event_index:06d}-{event_type}"`.
use Prim.Native.String.{◌++◌}
use infra_joint_planner.Prelude.{ℕ, String}
unfoldable pub use infra_joint_planner.Prelude.Decimal.{decimal}
use infra_joint_planner.Prelude.Decimal.{six_digits}

unfoldable pub step_id_of : ℕ → String → String
unfolding six_digits
step_id_of event_index event_type = six_digits event_index ++ ("-" ++ event_type)
