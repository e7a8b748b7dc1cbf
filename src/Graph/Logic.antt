-- ===== src/Graph/Logic.antt =====
-- A proof rule for code that emits trace events: what it has logged when it returns or raises.
-- The events form a chain: consecutive indices, and each one's parent is the event before it.
use mathlib.Core.List.{append_assoc, append-nil}
use infra_joint_planner.Prelude.{◌+◌, String, ◌≡◌, sym, ◌∙◌, ap, List, [], ◌∷◌, ◌++◌, some}
use infra_joint_planner.Core.Errors.{Exception, Result, ok, err}
use infra_joint_planner.Effects.{Effect, pure, raise, ◌>>=◌, continue}
use infra_joint_planner.Graph.Text.{step_id_of}
use infra_joint_planner.Graph.Trace.{Payload, event_type_of, TraceEvent, Traced}
use infra_joint_planner.Graph.Nodes.{Cursor}

-- The cursor behind the event of a payload.
abbrev pub next_cursor : Cursor → Payload → Cursor
next_cursor c p = record {
  event_index = c.event_index + 1;
  parent_event_id = some (step_id_of c.event_index (event_type_of p));
}

-- The event that stands at a cursor and carries a payload.
pub record IsEvent (run_id : String) (c : Cursor) (p : Payload) (e : TraceEvent) : Type 0 where
  pub run : e.run_id ≡ run_id
  pub step : e.step_id ≡ step_id_of c.event_index (event_type_of p)
  pub parent : e.parent_id ≡ c.parent_event_id
  pub kind : e.event_type ≡ event_type_of p
  pub carries : e.payload ≡ p

-- The events carry the payloads in order, chained from one cursor to the other.
pub data Chain (run_id : String) : Cursor → List Payload → List TraceEvent → Cursor → Type 0 where
  done : {c : Cursor} → Chain run_id c [] [] c
  link :
      {c c' : Cursor} {p : Payload} {ps : List Payload} {e : TraceEvent} {es : List TraceEvent}
      → IsEvent run_id c p e
      → Chain run_id (next_cursor c p) ps es c'
      → Chain run_id c (p ∷ ps) (e ∷ es) c'

pub Chain-append :
    {run_id : String} {c d c' : Cursor} {ps qs : List Payload} {es fs : List TraceEvent}
    → Chain run_id c ps es d
    → Chain run_id d qs fs c'
    → Chain run_id c (ps ++ qs) (es ++ fs) c'
Chain-append done k = k
Chain-append (link i h) k = link i (Chain-append h k)

-- A trace has grown by the events of `ps`.
pub record Extends (run_id : String) (c : Cursor) (before after : List TraceEvent)
    (ps : List Payload) (c' : Cursor) : Type 0 where
  pub events : List TraceEvent
  pub split : after ≡ before ++ events
  pub chain : Chain run_id c ps events c'

pub Extends-refl : (run_id : String) (c : Cursor) (t : List TraceEvent) → Extends run_id c t t [] c
Extends-refl run_id c t = record { events = []; split = sym (append-nil t); chain = done }

pub Extends-trans :
    {run_id : String} {c d c' : Cursor} {x y z : List TraceEvent} {ps qs : List Payload}
    → Extends run_id c x y ps d
    → Extends run_id d y z qs c'
    → Extends run_id c x z (ps ++ qs) c'
Extends-trans {x = x} h k = record {
  events = h.events ++ k.events;
  split = k.split ∙ ap (λ t. t ++ k.events) h.split ∙ append_assoc x h.events k.events;
  chain = Chain-append h.chain k.chain;
}

module _ {W : Type 0} (run_id : String) (E : Exception → Type 0) where
  -- What holds of a result, and of the payloads logged for it.
  abbrev pub Post :
      {A : Type 0}
      → Cursor
      → List TraceEvent
      → (A → List Payload → Cursor → Type 0)
      → Result A × Traced W
      → Type 0
  Post c before Q (ok a, t) =
      (ps : List Payload) × (c' : Cursor) × Extends run_id c before t.trace ps c' × Q a ps c'
  Post c before Q (err e, t) =
      (ps : List Payload) × (c' : Cursor) × Extends run_id c before t.trace ps c' × E e

  -- From a trace that ends at the cursor `c`, the code logs a chain. If it returns, `Q` holds of the
  -- result, the payloads and the cursor behind them; if it raises, `E` of the exception.
  pub record Logs {A : Type 0} (c : Cursor) (m : Effect (Traced W) A)
      (Q : A → List Payload → Cursor → Type 0) : Type 0 where
    pub at : (t : Traced W) → Post c t.trace Q (m t)

  module _ {A : Type 0} {c : Cursor} {Q : A → List Payload → Cursor → Type 0} where
    pub Logs-pure : (a : A) → Q a [] c → Logs c (pure a) Q
    Logs-pure a q = record { at = λ t. ([], c, Extends-refl run_id c t.trace, q) }

    pub Logs-raise : (e : Exception) → E e → Logs c (raise {W = Traced W} {A = A} e) Q
    Logs-raise e h = record { at = λ t. ([], c, Extends-refl run_id c t.trace, h) }

  bind-Post :
      {A B : Type 0} (c : Cursor) (Q : A → List Payload → Cursor → Type 0)
      (R : B → List Payload → Cursor → Type 0) (f : A → Effect (Traced W) B)
      → ((a : A) (ps : List Payload) (d : Cursor)
          → Q a ps d
          → Logs d (f a) (λ b qs c'. R b (ps ++ qs) c'))
      → (before : List TraceEvent) (r : Result A × Traced W) → Post c before Q r
      → Post c before R (continue r f)
  bind-Post {A} {B} c Q R f k before (ok a, t) (ps, d, x, q) = joined (f a t) ((k a ps d q).at t)
    where
      joined :
          (r : Result B × Traced W)
          → Post d t.trace (λ b qs c'. R b (ps ++ qs) c') r
          → Post c before R r
      joined (ok b, u) (qs, c', y, h) = (ps ++ qs, c', Extends-trans x y, h)
      joined (err e, u) (qs, c', y, h) = (ps ++ qs, c', Extends-trans x y, h)
  bind-Post c Q R f k before (err e, t) (ps, d, x, h) = (ps, d, x, h)

  pub Logs-bind :
      {A B : Type 0} {c : Cursor} {Q : A → List Payload → Cursor → Type 0}
      {R : B → List Payload → Cursor → Type 0} (m : Effect (Traced W) A)
      (f : A → Effect (Traced W) B)
      → Logs c m Q
      → ((a : A) (ps : List Payload) (d : Cursor)
          → Q a ps d
          → Logs d (f a) (λ b qs c'. R b (ps ++ qs) c'))
      → Logs c (m >>= f) R
  Logs-bind {c = c} {Q = Q} {R = R} m f h k = record {
    at = λ t. bind-Post c Q R f k t.trace (m t) (h.at t);
  }

  weaken-Post :
      {A : Type 0} (c : Cursor) (Q R : A → List Payload → Cursor → Type 0)
      → ((a : A) (ps : List Payload) (d : Cursor) → Q a ps d → R a ps d)
      → (before : List TraceEvent) (r : Result A × Traced W) → Post c before Q r
      → Post c before R r
  weaken-Post c Q R h before (ok a, t) (ps, d, x, q) = (ps, d, x, h a ps d q)
  weaken-Post c Q R h before (err e, t) p = p

  pub Logs-weaken :
      {A : Type 0} {c : Cursor} {Q R : A → List Payload → Cursor → Type 0} (m : Effect (Traced W) A)
      → Logs c m Q
      → ((a : A) (ps : List Payload) (d : Cursor) → Q a ps d → R a ps d)
      → Logs c m R
  Logs-weaken {c = c} {Q = Q} {R = R} m h k = record {
    at = λ t. weaken-Post c Q R k t.trace (m t) (h.at t);
  }
