-- ===== src/Operators/Media/Sheet.antt =====
-- operators/media.py: where `make_contact_sheet` puts each image.
use infra_joint_planner.Prelude.{ℕ, suc, ◌+◌, ◌-◌, ◌*◌, ◌/◌, ◌%◌, List, [], ◌∷◌, length}
use infra_joint_planner.Operators.Media.{ContactSheetArguments}

-- An image with its pixels.
pub record Image (P : Type 0) : Type 0 where
  pub width : ℕ
  pub height : ℕ
  pub pixels : P

pub record Placement (P : Type 0) : Type 0 where
  pub image : Image P
  pub offset_x : ℕ
  pub offset_y : ℕ

pub record Sheet (P : Type 0) : Type 0 where
  pub width : ℕ
  pub height : ℕ
  pub pasted : List (Placement P)

-- `math.ceil(n / columns)`
abbrev pub rows_for : ℕ → ℕ → ℕ
rows_for columns n = (n + (columns - 1)) / columns

module _ {P : Type 0} (arguments : ContactSheetArguments) where
  -- An image is no larger than its cell, so the differences are not below zero.
  unfoldable pub place : ℕ → Image P → Placement P
  place index image =
      let column = index % arguments.columns in
      let row = index / arguments.columns in
      record {
        image = image;
        offset_x = column * arguments.cell_width + (arguments.cell_width - image.width) / 2;
        offset_y = row * arguments.cell_height + (arguments.cell_height - image.height) / 2;
      }

  -- The images from an index on.
  unfoldable pub place_from : ℕ → List (Image P) → List (Placement P)
  unfolding place
  place_from index [] = []
  place_from index (image ∷ images) = place index image ∷ place_from (suc index) images

  unfoldable pub contact_sheet : List (Image P) → Sheet P
  unfolding place_from
  contact_sheet images = record {
    width = arguments.columns * arguments.cell_width;
    height = rows_for arguments.columns (length images) * arguments.cell_height;
    pasted = place_from 0 images;
  }
