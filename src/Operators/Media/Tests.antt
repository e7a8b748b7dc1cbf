-- ===== src/Operators/Media/Tests.antt =====
-- Three images on a sheet of two columns.
use infra_joint_planner.Prelude.{ℕ, List, [], ◌∷◌, All, arith}
use infra_joint_planner.Operators.Media.{ContactSheetArguments}
use infra_joint_planner.Operators.Media.Sheet.{Image, contact_sheet}
use infra_joint_planner.Operators.Media.Layout.{Fits, IsInside, Pairwise, contact_sheet-IsInside}

abbrev arguments : ContactSheetArguments
arguments = record { columns = 2; cell_width = 100; cell_height = 80; output_artifact_id = "sheet" }

abbrev image : ℕ → ℕ → Image ℕ
image w h = record { width = w; height = h; pixels = 0 }

abbrev images : List (Image ℕ)
images = image 100 60 ∷ image 30 80 ∷ image 99 79 ∷ []

images-Fits : All (Fits arguments) images
images-Fits = (
  record { width = omega arith; height = omega arith },
  (
    record { width = omega arith; height = omega arith },
    (record { width = omega arith; height = omega arith }, tt),
  ),
)

contact_sheet-IsInside_example :
    All (IsInside (contact_sheet arguments images)) (contact_sheet arguments images).pasted
    × Pairwise (contact_sheet arguments images).pasted
contact_sheet-IsInside_example = contact_sheet-IsInside arguments images (omega arith) images-Fits
