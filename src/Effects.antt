-- ===== src/Effects.antt =====
-- Code that acts on a world and may raise. What was done before a raise stays done, so the world comes
-- back beside the exception.
use infra_joint_planner.Prelude.{◌≡◌, String, List, [], ◌∷◌}
use infra_joint_planner.Core.Errors.{Exception, Result, ok, err}
use infra_joint_planner.Core.Json.{Float}
use infra_joint_planner.Core.State.{Datetime}

abbrev pub Effect {ℓ} : Type ℓ → Type ℓ → Type ℓ
Effect W A = W → Result A × W

module _ {ℓ} {W A : Type ℓ} where
  abbrev pub pure : A → Effect W A
  pure a w = (ok a, w)

  abbrev pub raise : Exception → Effect W A
  raise e w = (err e, w)

  abbrev pub lift : Result A → Effect W A
  lift r w = (r, w)

module _ {ℓ} {W A B : Type ℓ} where
  abbrev pub continue : Result A × W → (A → Effect W B) → Result B × W
  continue (ok a, w) f = f a w
  continue (err e, w) f = (err e, w)

  infixl 5 ◌>>=◌ ◌>>◌
  abbrev pub ◌>>=◌ : Effect W A → (A → Effect W B) → Effect W B
  ◌>>=◌ m f w = continue (m w) f

  abbrev pub ◌>>◌ : Effect W A → Effect W B → Effect W B
  m >> n = m >>= λ _. n

-- `[f(x) for x in xs]`, one after the other
unfoldable pub for_each : {W A B : Type 0} → (A → Effect W B) → List A → Effect W (List B)
for_each f [] = pure []
for_each f (x ∷ xs) = do y ← f x; ys ← for_each f xs; pure (y ∷ ys)

-- The clocks and the random identifiers of the process, and the one float computation that the
-- telemetry makes: the milliseconds between two readings of the clock, and a sum.
pub record Platform (W : Type 0) : Type 0 where
  pub perf_counter : W → Float × W
  pub now : W → Datetime × W
  pub uuid4 : W → String × W
  pub elapsed_ms : Float → Float → Float
  pub float_sum : List Float → Float

-- An effect that cannot raise.
abbrev pub total : {W A : Type 0} → (W → A × W) → Effect W A
total m w = let (a, w') = m w in (ok a, w')

-- Every exception that the computation raises is one of `P`.
abbrev pub Raises : {W A : Type 0} → (Exception → Type 0) → Effect W A → Type 0
Raises {W} P m = (w : W) (e : Exception) → (m w).0 ≡ err e → P e

-- The exception of the result, if it is one, is one of `P`.
abbrev pub OnlyRaises : {A : Type 0} → (Exception → Type 0) → Result A → Type 0
OnlyRaises P (ok a) = Unit
OnlyRaises P (err e) = P e

-- The same of the exceptions of a computation.
abbrev pub Throws : {W A : Type 0} → (Exception → Type 0) → Effect W A → Type 0
Throws {W} P m = (w : W) → OnlyRaises P (m w).0

module _ {W A B : Type 0} (P : Exception → Type 0) where
  pub continue-OnlyRaises :
      (r : Result A × W) (f : A → Effect W B)
      → OnlyRaises P r.0
      → ((a : A) (w : W) → OnlyRaises P (f a w).0)
      → OnlyRaises P (continue r f).0
  continue-OnlyRaises (ok a, w) f h k = k a w
  continue-OnlyRaises (err e, w) f h k = h

  pub bind-Throws :
      (m : Effect W A) (f : A → Effect W B)
      → Throws P m
      → ((a : A) → Throws P (f a))
      → Throws P (m >>= f)
  bind-Throws m f h k w = continue-OnlyRaises (m w) f (h w) k

module _ {W A B : Type 0} (P : Exception → Type 0) where
  pub for_each-Throws :
      (f : A → Effect W B) (xs : List A) → ((a : A) → Throws P (f a)) → Throws P (for_each f xs)
  unfolding for_each
  for_each-Throws f [] h w = tt
  for_each-Throws f (x ∷ xs) h w =
      continue-OnlyRaises P (f x w) _ (h x w)
        λ y w'. rest y (for_each f xs w') (for_each-Throws f xs h w')
    where
      rest :
          (y : B) (r : Result (List B) × W)
          → OnlyRaises P r.0
          → OnlyRaises P (continue r (λ ys. pure (y ∷ ys))).0
      rest y (ok ys, w') k = tt
      rest y (err e, w') k = k
