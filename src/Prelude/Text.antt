-- ===== src/Prelude/Text.antt =====
-- Texts: membership of a text in a list, sets of texts, and the order of Python's `str`.
use Prim.Native.Nat.{ℕ, Ordering, compare as compare_ℕ}
use Prim.Native.Char.{code}
use Prim.Native.String.{String, compare, then}
use Prim.Native.String.compare
use mathlib.Core.Path.{◌≡◌, refl}
use mathlib.Core.Logic.{◌⊎◌, inl, inr}
use mathlib.Core.Bool.{Bool, true, false, ◌||◌}
use mathlib.Core.List.{List, [], ◌∷◌}
use native.Mathlib.Omega.{arith}
use text.Mathlib.Text.{◌==◌, is_le}
use text.Mathlib.TextEquality.{eq_iff, path_by_compare}
use text.Mathlib.TextPositions.{eq_refl, compare_refl}
use infra_joint_planner.Prelude.Lists.{In, all}
use infra_joint_planner.Prelude.Tests.{Bool-cases}

-- `a in xs`
unfoldable pub elem : String → List String → Bool
elem a [] = false
elem a (x ∷ xs) = (a == x) || elem a xs

pub elem→In : (a : String) (xs : List String) → elem a xs ≡ true → In a xs
unfolding elem
elem→In a (x ∷ xs) h = elim (Bool-cases (a == x)) [
  | inl e ↦ inl ((eq_iff a x).0 e)
  | inr e ↦ inr (elem→In a xs (rw e at h))
]
elem→In a [] h = cc

pub In→elem : (a : String) (xs : List String) → In a xs → elem a xs ≡ true
unfolding elem
In→elem a [] m = absurd m
In→elem a (x ∷ xs) (inl e) = rw (e, eq_refl)
In→elem a (x ∷ xs) (inr m) = ground (arith, In→elem a xs m)

-- `xs <= ys` on sets
unfoldable pub subset : List String → List String → Bool
subset xs ys = all (λ x. elem x ys) xs

-- `compare` on numbers, swapped and chained.
abbrev swapped : Ordering → Ordering
swapped Ordering.lt = Ordering.gt
swapped Ordering.eq = Ordering.eq
swapped Ordering.gt = Ordering.lt

compare_ℕ_swap : (m n : ℕ) → compare_ℕ n m ≡ swapped (compare_ℕ m n)
compare_ℕ_swap m n = ground arith

then-swapped : (a b : Ordering) → then (swapped a) (swapped b) ≡ swapped (then a b)
then-swapped Ordering.lt b = refl
then-swapped Ordering.eq b = refl
then-swapped Ordering.gt b = refl

pub compare_swap : (s t : String) → compare t s ≡ swapped (compare s t)
compare_swap String.[] String.[] = rw compare.nil-nil
compare_swap String.[] (String.◌∷◌ d t) = rw (compare.nil-cons, compare.cons-nil)
compare_swap (String.◌∷◌ c s) String.[] = rw (compare.nil-cons, compare.cons-nil)
compare_swap (String.◌∷◌ c s) (String.◌∷◌ d t) =
    rw (compare.cons-cons c d s t, compare.cons-cons d c t s, compare_ℕ_swap (code c) (code d))
      (rw (compare_swap s t) (then-swapped _ _))

-- One step of the lexicographic order is transitive.
then_trans :
    (a b c : ℕ) (x y z : Ordering)
    → (is_le x ≡ true → is_le y ≡ true → is_le z ≡ true)
    → is_le (then (compare_ℕ a b) x) ≡ true
    → is_le (then (compare_ℕ b c) y) ≡ true
    → is_le (then (compare_ℕ a c) z) ≡ true
then_trans a b c x y z ih h k = ground arith

-- The order of texts, by code points.
unfoldable pub str_leb : String → String → Bool
str_leb s t = is_le (compare s t)

pub str_leb_refl : (s : String) → str_leb s s ≡ true
unfolding str_leb
str_leb_refl s = rw compare_refl

pub str_leb_trans : (s t u : String) → str_leb s t ≡ true → str_leb t u ≡ true → str_leb s u ≡ true
unfolding str_leb
str_leb_trans String.[] t String.[] h k = refl
str_leb_trans String.[] t (String.◌∷◌ e u) h k = rw (compare.nil-cons e u)
str_leb_trans (String.◌∷◌ c s) String.[] u h k = absurd (cc (compare.cons-nil c s))
str_leb_trans (String.◌∷◌ c s) (String.◌∷◌ d t) String.[] h k = absurd (cc (compare.cons-nil d t))
str_leb_trans (String.◌∷◌ c s) (String.◌∷◌ d t) (String.◌∷◌ e u) h k =
    rw (compare.cons-cons c e s u) (
      then_trans (code c) (code d) (code e) (compare s t) (compare t u) (compare s u)
        (str_leb_trans s t u) (rw (compare.cons-cons c d s t) at h)
        (rw (compare.cons-cons d e t u) at k))

is_le-swapped : (o : Ordering) → (is_le o ≡ true) ⊎ (is_le (swapped o) ≡ true)
is_le-swapped Ordering.lt = inl refl
is_le-swapped Ordering.eq = inl refl
is_le-swapped Ordering.gt = inr refl

pub str_leb_total : (s t : String) → (str_leb s t ≡ true) ⊎ (str_leb t s ≡ true)
unfolding str_leb
str_leb_total s t = rw (compare_swap s t) (is_le-swapped (compare s t))

both_le-eq : (o : Ordering) → is_le o ≡ true → is_le (swapped o) ≡ true → o ≡ Ordering.eq
both_le-eq Ordering.lt h k = absurd (cc)
both_le-eq Ordering.eq h k = refl
both_le-eq Ordering.gt h k = absurd (cc)

pub str_leb_antisymm : (s t : String) → str_leb s t ≡ true → str_leb t s ≡ true → s ≡ t
unfolding str_leb
str_leb_antisymm s t h k =
    path_by_compare s t (both_le-eq (compare s t) h (rw (compare_swap s t) at k))
