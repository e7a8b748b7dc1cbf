-- ===== src/Graph/Bytes.antt =====
-- The bytes that a run has moved: by its observations, and by the events that it has logged.
use infra_joint_planner.Prelude.{ℕ, ◌+◌, ◌≡◌, refl, ◌∙◌, List, [], ◌∷◌, ◌++◌, map, arith}
use infra_joint_planner.Model.{sum}
use infra_joint_planner.Executor.{ArtifactTransferTelemetry, ExecutionResult}
use infra_joint_planner.Graph.Trace.{Payload, materialize_end, transfer_end}
use infra_joint_planner.Graph.Run.{all_transfers}

abbrev pub moved : List ArtifactTransferTelemetry → ℕ
moved [] = 0
moved (t ∷ ts) = t.bytes_transferred + moved ts

-- The bytes of an event about a transfer.
abbrev pub bytes_of : Payload → ℕ
bytes_of (materialize_end t) = t.bytes_transferred
bytes_of (transfer_end t) = t.bytes_transferred
bytes_of _ = 0

abbrev pub bytes_logged : List Payload → ℕ
bytes_logged [] = 0
bytes_logged (p ∷ ps) = bytes_of p + bytes_logged ps

abbrev pub observed : List ExecutionResult → ℕ
observed [] = 0
observed (o ∷ os) = moved o.transfers + observed os

pub bytes_logged-append :
    (ps qs : List Payload) → bytes_logged (ps ++ qs) ≡ bytes_logged ps + bytes_logged qs
bytes_logged-append [] qs = omega arith
bytes_logged-append (p ∷ ps) qs = omega (arith, bytes_logged-append ps qs)

pub bytes_logged-transfers :
    (ts : List ArtifactTransferTelemetry) → bytes_logged (map transfer_end ts) ≡ moved ts
bytes_logged-transfers [] = refl
bytes_logged-transfers (t ∷ ts) = omega (arith, bytes_logged-transfers ts)

pub bytes_logged-materialized :
    (ts : List ArtifactTransferTelemetry) → bytes_logged (map materialize_end ts) ≡ moved ts
bytes_logged-materialized [] = refl
bytes_logged-materialized (t ∷ ts) = omega (arith, bytes_logged-materialized ts)

pub observed-append :
    (os os' : List ExecutionResult) → observed (os ++ os') ≡ observed os + observed os'
observed-append [] os' = omega arith
observed-append (o ∷ os) os' = omega (arith, observed-append os os')

moved-append : (ts us : List ArtifactTransferTelemetry) → moved (ts ++ us) ≡ moved ts + moved us
moved-append [] us = omega arith
moved-append (t ∷ ts) us = omega (arith, moved-append ts us)

sum-moved :
    (ts : List ArtifactTransferTelemetry)
    → sum (map (λ (t : ArtifactTransferTelemetry). t.bytes_transferred) ts) ≡ moved ts
sum-moved [] = refl
sum-moved (t ∷ ts) = omega (arith, sum-moved ts)

moved-all_transfers :
    (initial : List ArtifactTransferTelemetry) (os : List ExecutionResult)
    → moved (all_transfers initial os) ≡ moved initial + observed os
moved-all_transfers initial [] = omega arith
moved-all_transfers initial (o ∷ os) =
    omega (arith, moved-all_transfers (initial ++ o.transfers) os, moved-append initial o.transfers)

-- The sum that the telemetry reports.
pub sum-all_transfers :
    (initial : List ArtifactTransferTelemetry) (os : List ExecutionResult)
    → sum (map (λ (t : ArtifactTransferTelemetry). t.bytes_transferred) (all_transfers initial os))
      ≡ moved initial + observed os
sum-all_transfers initial os = sum-moved (all_transfers initial os) ∙ moved-all_transfers initial os
