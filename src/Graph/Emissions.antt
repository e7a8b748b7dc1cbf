-- ===== src/Graph/Emissions.antt =====
-- What the graph's own emissions log, and that calls of the outside world log nothing: rules for the
-- first step of a block.
use infra_joint_planner.Prelude.{String, ◌≡◌, refl, ap, true, List, [], ◌∷◌, ◌++◌}
use infra_joint_planner.Core.Errors.{Exception, Result, ok, err}
use infra_joint_planner.Effects.{Effect, lift, ◌>>=◌, continue, Platform, total, Raises}
use infra_joint_planner.Graph.Trace.{Payload, TraceEvent, Traced}
use infra_joint_planner.Graph.Nodes.{Cursor, in_world, emit_from_values, emit_all}
use infra_joint_planner.Graph.Logic.{
  next_cursor, done, link, Extends, Extends-refl, Extends-trans, Logs, Post,
}

-- The cursor behind the events of all the payloads.
abbrev pub cursor_after : Cursor → List Payload → Cursor
cursor_after c [] = c
cursor_after c (p ∷ ps) = cursor_after (next_cursor c p) ps

module _ {W : Type 0} (platform : Platform W) (run_id : String) (E : Exception → Type 0) where
  extend-Post :
      {B : Type 0} (R : B → List Payload → Cursor → Type 0) (c d : Cursor) (ps : List Payload)
      (before after : List TraceEvent)
      → Extends run_id c before after ps d
      → (r : Result B × Traced W) → Post run_id E d after (λ b qs c'. R b (ps ++ qs) c') r
      → Post run_id E c before R r
  extend-Post R c d ps before after x (ok b, t) (qs, c', y, h) =
      (ps ++ qs, c', Extends-trans x y, h)
  extend-Post R c d ps before after x (err e, t) (qs, c', y, h) =
      (ps ++ qs, c', Extends-trans x y, h)

  module _ {B : Type 0} {R : B → List Payload → Cursor → Type 0} where
    -- An event, and then the rest.
    pub Logs-emit :
        (r : String) (c : Cursor) (p : Payload) (f : Cursor → Effect (Traced W) B)
        → r ≡ run_id
        → Logs run_id E (next_cursor c p) (f (next_cursor c p)) (λ b qs d. R b (p ∷ qs) d)
        → Logs run_id E c (emit_from_values platform true r c p >>= f) R
    unfolding emit_from_values
    Logs-emit r c p f e h = record {
      at = λ t.
          extend-Post R c (next_cursor c p) (p ∷ []) t.trace _
            (record {
              events = _;
              split = refl;
              chain =
                  link (record { run = e; step = refl; parent = refl; kind = refl; carries = refl })
                    done;
            })
            _ (h.at _);
    }

    pub Logs-world :
        (c : Cursor) {A : Type 0} (m : Effect W A) (f : A → Effect (Traced W) B)
        → Raises E m
        → ((a : A) → Logs run_id E c (f a) R)
        → Logs run_id E c (in_world platform true m >>= f) R
    Logs-world c {A} m f q h = record { at = λ t. branch t (m t.world) refl }
      where
        branch :
            (t : Traced W) (r : Result A × W)
            → m t.world ≡ r
            → Post run_id E c t.trace R (continue (r.0, record t { world = r.1 }) f)
        branch t (ok a, w) e = (h a).at (record t { world = w })
        branch t (err x, w) e =
            ([], c, Extends-refl run_id c t.trace, q t.world x (ap (λ r. r.0) e))

    pub Logs-total :
        (c : Cursor) {A : Type 0} (m : W → A × W) (f : A → Effect (Traced W) B)
        → ((a : A) → Logs run_id E c (f a) R)
        → Logs run_id E c (in_world platform true (total m) >>= f) R
    Logs-total c m f h = Logs-world c (total m) f (λ w e k. cc) h

    pub Logs-lift :
        (c : Cursor) {A : Type 0} (r : Result A) (f : A → Effect (Traced W) B)
        → ((e : Exception) → r ≡ err e → E e)
        → ((a : A) → r ≡ ok a → Logs run_id E c (f a) R)
        → Logs run_id E c (lift r >>= f) R
    Logs-lift c (ok a) f q h = record { at = (h a refl).at }
    Logs-lift c (err e) f q h = record {
      at = λ t. ([], c, Extends-refl run_id c t.trace, q e refl);
    }

  -- Several events, and then the rest.
  pub Logs-emit_all :
      {B : Type 0} {R : B → List Payload → Cursor → Type 0} (r : String) (c : Cursor)
      (ps : List Payload) (f : Cursor → Effect (Traced W) B)
      → r ≡ run_id
      → Logs run_id E (cursor_after c ps) (f (cursor_after c ps)) (λ b qs d. R b (ps ++ qs) d)
      → Logs run_id E c (emit_all platform true r c ps >>= f) R
  unfolding emit_all emit_from_values
  Logs-emit_all r c [] f e h = record { at = h.at }
  Logs-emit_all r c (p ∷ ps) f e h = record {
    at =
        (Logs-emit r c p (λ d. emit_all platform true r d ps >>= f) e
          (Logs-emit_all r (next_cursor c p) ps f e h)).at;
  }
