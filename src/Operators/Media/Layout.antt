-- ===== src/Operators/Media/Layout.antt =====
-- operators/media.py: the images of a contact sheet stay in it and apart.
use infra_joint_planner.Prelude.{
  ℕ, suc, ◌+◌, ◌-◌, ◌*◌, ◌/◌, ◌%◌, ◌≤◌, ◌<◌, ◌≡◌, refl, ◌⊎◌, inl, inr, List, [], ◌∷◌, length, All,
  arith,
}
use infra_joint_planner.Operators.Media.{ContactSheetArguments}
use infra_joint_planner.Operators.Media.Sheet.{
  Image, Placement, Sheet, place, place_from, rows_for, contact_sheet,
}

module _ {P : Type 0} where
  -- Nothing of the image is outside the sheet.
  pub record IsInside (s : Sheet P) (p : Placement P) : Type 0 where
    pub right : p.offset_x + p.image.width ≤ s.width
    pub bottom : p.offset_y + p.image.height ≤ s.height

  -- One image is beside the other, or above or below it.
  abbrev pub Disjoint : Placement P → Placement P → Type 0
  Disjoint p q =
      (p.offset_x + p.image.width ≤ q.offset_x)
      ⊎ (q.offset_x + q.image.width ≤ p.offset_x)
      ⊎ (p.offset_y + p.image.height ≤ q.offset_y)
      ⊎ (q.offset_y + q.image.height ≤ p.offset_y)

  abbrev pub Pairwise : List (Placement P) → Type 0
  Pairwise [] = Unit
  Pairwise (p ∷ ps) = All (Disjoint p) ps × Pairwise ps

mul_step : (a b k : ℕ) → a < b → a * k + k ≤ b * k
mul_step a b k h = grind arith

-- An image is within its cell, and cells are in order.
cell_before : (a b k w v : ℕ) → a < b → w ≤ k → a * k + (k - w) / 2 + w ≤ b * k + (k - v) / 2
cell_before a b k w v h l = omega (arith, mul_step a b k h)

cell_inside : (a b k w : ℕ) → a < b → w ≤ k → a * k + (k - w) / 2 + w ≤ b * k
cell_inside a b k w h l = omega (arith, mul_step a b k h)

row_bound : (i n c : ℕ) → 1 ≤ c → i < n → i / c < (n + (c - 1)) / c
row_bound i n c h l = grind arith

Compared : ℕ → ℕ → Type 0
Compared a b = (a < b) ⊎ (a ≡ b) ⊎ (b < a)

compare_ℕ : (a b : ℕ) → Compared a b
unfolding Compared
compare_ℕ a b = grind arith

-- Two indices in the same row are in different columns.
column_differs : (i j c : ℕ) → 1 ≤ c → i < j → i / c ≡ j / c → i % c < j % c
column_differs i j c h l e = grind arith

module _ {P : Type 0} (arguments : ContactSheetArguments) where
  -- What `thumbnail` makes: an image no larger than a cell.
  pub record Fits (image : Image P) : Type 0 where
    pub width : image.width ≤ arguments.cell_width
    pub height : image.height ≤ arguments.cell_height

  abbrev sheet_for : ℕ → Sheet P
  sheet_for n = record {
    width = arguments.columns * arguments.cell_width;
    height = rows_for arguments.columns n * arguments.cell_height;
    pasted = [];
  }

  place-IsInside :
      (i n : ℕ) (image : Image P)
      → 1 ≤ arguments.columns
      → i < n
      → Fits image
      → IsInside (sheet_for n) (place arguments i image)
  unfolding place
  place-IsInside i n image c l f = record {
    right =
        cell_inside (i % arguments.columns) arguments.columns arguments.cell_width image.width
          (omega arith) f.width;
    bottom =
        cell_inside (i / arguments.columns) (rows_for arguments.columns n) arguments.cell_height
          image.height (row_bound i n arguments.columns c l) f.height;
  }

  place-Disjoint :
      (i j : ℕ) (p q : Image P)
      → 1 ≤ arguments.columns
      → i < j
      → Fits p
      → Fits q
      → Disjoint (place arguments i p) (place arguments j q)
  unfolding place Compared
  place-Disjoint i j p q c l f g =
      elim (compare_ℕ (i / arguments.columns) (j / arguments.columns)) [
        | inl above ↦
            inr (inr (inl (cell_before _ _ arguments.cell_height p.height q.height above f.height)))
        | inr rest ↦ elim rest [
          | inl same ↦ inl (
              cell_before _ _ arguments.cell_width p.width q.width
                (column_differs i j arguments.columns c l same) f.width)
          | inr below ↦
              inr
                (inr (inr (cell_before _ _ arguments.cell_height q.height p.height below g.height)))
        ]
      ]

  place_from-IsInside :
      (n i : ℕ) (images : List (Image P))
      → 1 ≤ arguments.columns
      → i + length images ≤ n
      → All Fits images
      → All (IsInside (sheet_for n)) (place_from arguments i images)
  unfolding place_from
  place_from-IsInside n i [] c l f = tt
  place_from-IsInside n i (image ∷ images) c l f = (
    place-IsInside i n image c (omega arith) f.0,
    place_from-IsInside n (suc i) images c (omega arith) f.1,
  )

  place-apart :
      (i j : ℕ) (p : Image P) (images : List (Image P))
      → 1 ≤ arguments.columns
      → i < j
      → Fits p
      → All Fits images
      → All (Disjoint (place arguments i p)) (place_from arguments j images)
  unfolding place_from
  place-apart i j p [] c l f g = tt
  place-apart i j p (q ∷ images) c l f g =
      (place-Disjoint i j p q c l f g.0, place-apart i (suc j) p images c (omega arith) f g.1)

  place_from-Pairwise :
      (i : ℕ) (images : List (Image P))
      → 1 ≤ arguments.columns
      → All Fits images
      → Pairwise (place_from arguments i images)
  unfolding place_from
  place_from-Pairwise i [] c f = tt
  place_from-Pairwise i (p ∷ images) c f = (
    place-apart i (suc i) p images c (omega arith) f.0 f.1,
    place_from-Pairwise (suc i) images c f.1,
  )

  IsInside-same :
      (s t : Sheet P) (ps : List (Placement P))
      → s.width ≡ t.width
      → s.height ≡ t.height
      → All (IsInside s) ps
      → All (IsInside t) ps
  IsInside-same s t [] e e' h = tt
  IsInside-same s t (p ∷ ps) e e' h = (
    record { right = omega (arith, h.0.right, e); bottom = omega (arith, h.0.bottom, e') },
    IsInside-same s t ps e e' h.1,
  )

  -- Each image that is pasted is wholly inside the contact sheet, and no two overlap, if there is a
  -- column and no image is larger than a cell.
  pub contact_sheet-IsInside :
      (images : List (Image P))
      → 1 ≤ arguments.columns
      → All Fits images
      → All (IsInside (contact_sheet arguments images)) (contact_sheet arguments images).pasted
        × Pairwise (contact_sheet arguments images).pasted
  unfolding contact_sheet
  contact_sheet-IsInside images c f = (
    IsInside-same (sheet_for (length images)) (contact_sheet arguments images) _ refl refl
        (place_from-IsInside (length images) 0 images c (omega arith) f),
    place_from-Pairwise 0 images c f,
  )
