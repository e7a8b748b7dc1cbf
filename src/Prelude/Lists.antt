-- ===== src/Prelude/Lists.antt =====
-- Lists: native lengths, and the Boolean searches of Python's comprehensions, `any`, `all` and `in`.
use Prim.Native.Nat.{ℕ, zero, suc, ◌+◌}
use mathlib.Core.Path.{◌≡◌, refl, ap}
use mathlib.Core.Logic.{◌⊎◌, inl, inr}
use mathlib.Core.Bool.{Bool, true, false, ◌&&◌, ◌||◌}
use mathlib.Core.Option.{Option, none, some}
use mathlib.Core.List.{List, [], ◌∷◌, ◌++◌, map}
use native.Mathlib.Omega.{arith}
use infra_joint_planner.Prelude.Tests.{if◌then◌else◌, Bool-cases}

module _ {ℓ} {A : Type ℓ} where
  abbrev pub length : List A → ℕ
  length [] = 0
  length (x ∷ xs) = suc (length xs)

  abbrev pub take : ℕ → List A → List A
  take zero xs = []
  take (suc n) [] = []
  take (suc n) (x ∷ xs) = x ∷ take n xs

  abbrev pub get_elem? : List A → ℕ → Option A
  get_elem? [] i = none
  get_elem? (x ∷ xs) zero = some x
  get_elem? (x ∷ xs) (suc i) = get_elem? xs i

  abbrev pub first : List A → Option A
  first [] = none
  first (x ∷ xs) = some x

  pub length-append : (xs ys : List A) → length (xs ++ ys) ≡ length xs + length ys
  length-append [] ys = omega arith
  length-append (x ∷ xs) ys = omega (arith, length-append xs ys)

  -- `[x for x in xs if p(x)]`
  unfoldable pub keep : (A → Bool) → List A → List A
  keep p [] = []
  keep p (x ∷ xs) = let rest = keep p xs in if p x then x ∷ rest else rest

  unfoldable pub any : (A → Bool) → List A → Bool
  any p [] = false
  any p (x ∷ xs) = p x || any p xs

  unfoldable pub all : (A → Bool) → List A → Bool
  all p [] = true
  all p (x ∷ xs) = p x && all p xs

  -- `sum(p(x) for x in xs)`, which counts a true as one
  unfoldable pub count_of : (A → Bool) → List A → ℕ
  count_of p [] = 0
  count_of p (x ∷ xs) = (if p x then 1 else 0) + count_of p xs

module _ {ℓ κ} {A : Type ℓ} (P : A → Type κ) where
  abbrev pub All : List A → Type κ
  All [] = Unit
  All (x ∷ xs) = P x × All xs

  pub All-append : (xs ys : List A) → All xs → All ys → All (xs ++ ys)
  All-append [] ys h k = k
  All-append (x ∷ xs) ys h k = (h.0, All-append xs ys h.1 k)

module _ {A : Type 0} where
  -- `a` is one of the list, with its place.
  abbrev pub In : A → List A → Type 0
  In a [] = ⊥
  In a (x ∷ xs) = (a ≡ x) ⊎ In a xs

  pub All-In {κ} : (P : A → Type κ) (a : A) (xs : List A) → All P xs → In a xs → P a
  All-In P a [] h m = absurd m
  All-In P a (x ∷ xs) h (inl e) = rw e h.0
  All-In P a (x ∷ xs) h (inr m) = All-In P a xs h.1 m

  pub All-of_In {κ} : (P : A → Type κ) (xs : List A) → ((a : A) → In a xs → P a) → All P xs
  All-of_In P [] h = tt
  All-of_In P (x ∷ xs) h = (h x (inl refl), All-of_In P xs (λ a m. h a (inr m)))

  pub In-append_left : (a : A) (xs ys : List A) → In a xs → In a (xs ++ ys)
  In-append_left a [] ys m = absurd m
  In-append_left a (x ∷ xs) ys (inl e) = inl e
  In-append_left a (x ∷ xs) ys (inr m) = inr (In-append_left a xs ys m)

  pub In-append_right : (a : A) (xs ys : List A) → In a ys → In a (xs ++ ys)
  In-append_right a [] ys m = m
  In-append_right a (x ∷ xs) ys m = inr (In-append_right a xs ys m)

  keep_rest :
      (a x : A) (p : A → Bool) (xs : List A) → In a xs × (p a ≡ true) → In a (x ∷ xs) × (p a ≡ true)
  keep_rest a x p xs (m, e) = (inr m, e)

  pub In-keep : (a : A) (p : A → Bool) (xs : List A) → In a (keep p xs) → In a xs × (p a ≡ true)
  unfolding keep
  In-keep a p [] m = absurd m
  In-keep a p (x ∷ xs) m = elim (Bool-cases (p x)) [
    | inl h ↦ found h (λ r. In-keep a p xs r) (rw h at m)
    | inr h ↦ keep_rest a x p xs (In-keep a p xs (rw h at m))
  ]
    where
      found :
          p x ≡ true
          → (In a (keep p xs) → In a xs × (p a ≡ true))
          → (a ≡ x) ⊎ In a (keep p xs)
          → In a (x ∷ xs) × (p a ≡ true)
      found h ih (inl e) = (inl e, rw e h)
      found h ih (inr r) = keep_rest a x p xs (ih r)

  pub keep-In : (a : A) (p : A → Bool) (xs : List A) → In a xs → p a ≡ true → In a (keep p xs)
  unfolding keep
  keep-In a p [] m h = absurd m
  keep-In a p (x ∷ xs) (inl e) h = let h' : p x ≡ true = rw (← e) h in rw h' (inl e)
  keep-In a p (x ∷ xs) (inr m) h = elim (Bool-cases (p x)) [
    | inl b ↦ rw b (inr (keep-In a p xs m h))
    | inr b ↦ rw b (keep-In a p xs m h)
  ]

  pub all-In : (a : A) (p : A → Bool) (xs : List A) → all p xs ≡ true → In a xs → p a ≡ true
  unfolding all
  all-In a p [] h m = absurd m
  all-In a p (x ∷ xs) h (inl e) = rw e (ground arith)
  all-In a p (x ∷ xs) h (inr m) = all-In a p xs (ground arith) m

  pub all-of_In : (p : A → Bool) (xs : List A) → ((a : A) → In a xs → p a ≡ true) → all p xs ≡ true
  unfolding all
  all-of_In p [] h = refl
  all-of_In p (x ∷ xs) h = rw (h x (inl refl)) (all-of_In p xs (λ a m. h a (inr m)))

  pub any-In : (p : A → Bool) (xs : List A) → any p xs ≡ true → (a : A) × In a xs × (p a ≡ true)
  unfolding any
  any-In p [] h = absurd (cc)
  any-In p (x ∷ xs) h = elim (Bool-cases (p x)) [
    | inl e ↦ (x, inl refl, e)
    | inr e ↦ let (a, m, e') = any-In p xs (rw e at h) in (a, inr m, e')
  ]

module _ {A B : Type 0} where
  pub In-map : (b : B) (f : A → B) (xs : List A) → In b (map f xs) → (a : A) × In a xs × (b ≡ f a)
  In-map b f [] m = absurd m
  In-map b f (x ∷ xs) (inl e) = (x, inl refl, e)
  In-map b f (x ∷ xs) (inr m) = let (a, m', e) = In-map b f xs m in (a, inr m', e)

  pub map-In : (a : A) (f : A → B) (xs : List A) → In a xs → In (f a) (map f xs)
  map-In a f [] m = absurd m
  map-In a f (x ∷ xs) (inl e) = inl (ap f e)
  map-In a f (x ∷ xs) (inr m) = inr (map-In a f xs m)

module _ {ℓ κ} {A : Type ℓ} {B : Type κ} where
  pub length-map : (f : A → B) (xs : List A) → length (map f xs) ≡ length xs
  length-map f [] = refl
  length-map f (x ∷ xs) = ap suc (length-map f xs)
