-- ===== src/Operators/Media/Handlers.antt =====
-- operators/media.py: the handlers. A temporary directory is a dictionary of its files, which starts
-- empty and is forgotten at the end; paths are relative to it. Pillow and pydantic's decoding of the
-- arguments are parameters.
use Prim.Native.String.{◌++◌ as str_append}
use text.Mathlib.Text.{starts_with, ◌==◌}
use infra_joint_planner.Prelude.{
  ℕ, suc, String, Bool, true, false, not, ◌&&◌, ◌||◌, List, [], ◌∷◌, Option, none, some, length,
  ltb, keep, if◌then◌else◌,
}
use infra_joint_planner.Prelude.Text.{str_leb}
use infra_joint_planner.Prelude.Sorting.{sort_by}
use infra_joint_planner.Prelude.Dict.{Dict, lookup, insert, keys}
use infra_joint_planner.Prelude.Decimal.{six_digits}
use infra_joint_planner.Core.Errors.{
  Result, ok, err, words, name, require, or_raise, value_error, other_error, media_execution_error,
}
use infra_joint_planner.Core.Json.{arr, obj, Items, nil, cons, Fields, end, field}
use infra_joint_planner.Core.Action.{SemanticAction}
use infra_joint_planner.Model.{Bytes}
use infra_joint_planner.Effects.{Effect, pure, raise, lift, ◌>>=◌, ◌>>◌}
use infra_joint_planner.Store.{StoredArtifact, create}
use infra_joint_planner.Store.Interface.{ArtifactStore}
use infra_joint_planner.Worker.{Held, Handler, get_stored, put_stored}
use infra_joint_planner.Operators.Records.{told, dump_produced}
use infra_joint_planner.Operators.Media.{
  SampleFramesArguments, ExtractClipArguments, ContactSheetArguments, MediaBackend,
}
use infra_joint_planner.Operators.Media.Sheet.{Image, Sheet, contact_sheet}

pub record MediaParsers : Type 0 where
  pub sample_frames : Fields → Result SampleFramesArguments
  pub extract_clip : Fields → Result ExtractClipArguments
  pub contact_sheet : Fields → Result ContactSheetArguments

-- Pillow: an image in RGB, no larger than the given size, or none where its bytes are not an image; and
-- a black sheet with images pasted into it, as JPEG.
pub record Imaging (P : Type 0) : Type 0 where
  pub thumbnail : Bytes → ℕ → ℕ → Option (Image P)
  pub jpeg : Sheet P → Bytes

pub record Scratch (W : Type 0) : Type 0 where
  pub files : Dict Bytes
  pub outer : W

-- The content of a file that is there and not empty.
abbrev pub filled : Option Bytes → Option Bytes
filled (some (b ∷ bs)) = some (b ∷ bs)
filled _ = none

-- `text.endswith(suffix)`
unfoldable pub ends_with : String → String → Bool
ends_with String.[] suffix = suffix == ""
ends_with (String.◌∷◌ c text) suffix = (String.◌∷◌ c text == suffix) || ends_with text suffix

-- `path.read_bytes()`
abbrev pub read_bytes : Dict Bytes → String → Result Bytes
read_bytes files path = or_raise (other_error "FileNotFoundError") (lookup path files)

module _ {W : Type 0} where
  abbrev pub write_bytes : String → Bytes → Effect (Scratch W) (Unit {0})
  write_bytes path content d =
      (ok tt, record { files = insert path content d.files; outer = d.outer })

  -- `sorted(directory.glob("frame-*.jpg"))`
  abbrev pub frame_paths : Effect (Scratch W) (List String)
  frame_paths d = (
    ok (
        sort_by str_leb
          (keep (λ path. starts_with path "frame-" && ends_with path ".jpg") (keys d.files))),
    d,
  )

  -- The paths, with the files that the directory holds.
  abbrev pub with_files : List String → Effect (Scratch W) (List String × Dict Bytes)
  with_files paths d = (ok (paths, d.files), d)

  abbrev pub read_clip : String → Effect (Scratch W) Bytes
  read_clip path d = (
    or_raise (media_execution_error (words "ffmpeg produced no clip" ∷ []))
        (filled (lookup path d.files)),
    d,
  )

-- `with tempfile.TemporaryDirectory() as temp`
abbrev pub in_directory : {S W A : Type 0} → Effect (Scratch W) A → Effect (Held S W) A
in_directory m h =
    let (r, d) = m (record { files = []; outer = h.world }) in
    (r, record { store = h.store; world = d.outer })

abbrev pub dumped : List StoredArtifact → Items
dumped [] = nil
dumped (a ∷ artifacts) = cons (dump_produced (told a)) (dumped artifacts)

abbrev pub checked_video : StoredArtifact → Result StoredArtifact
checked_video a =
    if starts_with a.media_type "video/"
    then ok a
    else err (value_error (words "input artifact is not video: " ∷ name a.artifact_id ∷ []))

abbrev pub no_items : {A : Type 0} → List A → Bool
no_items [] = true
no_items (a ∷ rest) = false

abbrev unavailable_ffmpeg : {W A : Type 0} → Effect W A
unavailable_ffmpeg = raise (media_execution_error (words "ffmpeg capability is unavailable" ∷ []))

abbrev pub decoded_image :
    {P : Type 0} → Imaging P → ContactSheetArguments → String → StoredArtifact → Result (Image P)
decoded_image imaging arguments artifact_id artifact =
    if starts_with artifact.media_type "image/"
    then or_raise (value_error (words "invalid image artifact: " ∷ name artifact_id ∷ []))
        (imaging.thumbnail artifact.content arguments.cell_width arguments.cell_height)
    else err (value_error (words "input artifact is not an image: " ∷ name artifact_id ∷ []))

module _ {S W : Type 0} (store : ArtifactStore S) (sha256 : Bytes → String)
    (parsers : MediaParsers) where
  abbrev pub the_video : String → List String → Effect (Held S W) StoredArtifact
  the_video operator (input ∷ []) = do
    artifact ← get_stored store input
    lift (checked_video artifact)
  the_video operator _ =
      raise (value_error (name operator ∷ words " requires exactly one video input" ∷ []))

  -- `_video_input`
  abbrev pub video_input : SemanticAction → Effect (Held S W) StoredArtifact
  video_input action = the_video action.operator action.inputs

  abbrev pub keep_content : String → String → Bytes → Effect (Held S W) StoredArtifact
  keep_content artifact_id media_type content = do
    artifact ← lift (create sha256 artifact_id media_type content)
    put_stored store artifact
    pure artifact

  -- The loop: each frame is read from the directory's files and stored before the next one is read,
  -- numbered from `index` on.
  unfoldable pub store_frames :
      String → Dict Bytes → ℕ → List String → Effect (Held S W) (List StoredArtifact)
  store_frames prefix files index [] = pure []
  store_frames prefix files index (frame_path ∷ frame_paths) = do
    content ← lift (read_bytes files frame_path)
    artifact ←
        keep_content
          (str_append prefix (str_append "/frame-" (str_append (six_digits index) ".jpg")))
          "image/jpeg" content
    artifacts ← store_frames prefix files (suc index) frame_paths
    pure (artifact ∷ artifacts)

  unfoldable pub sample_frames : Option (MediaBackend (Scratch W)) → Handler S W
  unfolding store_frames
  sample_frames none action = unavailable_ffmpeg
  sample_frames (some backend) action = do
    arguments ← lift (parsers.sample_frames action.arguments)
    source ← video_input action
    directory ← in_directory (do
      write_bytes "input.mp4" source.content
      backend.sample_frames "input.mp4" "frame-%06d.jpg" arguments.every_seconds
          arguments.max_frames
      paths ← frame_paths
      with_files paths)
    produced ← store_frames arguments.output_prefix directory.1 1 directory.0
    if no_items produced
        then raise (media_execution_error (words "ffmpeg produced no frames" ∷ []))
        else pure (obj (field "artifacts" (arr (dumped produced)) end))

  unfoldable pub extract_clip : Option (MediaBackend (Scratch W)) → Handler S W
  extract_clip none action = unavailable_ffmpeg
  extract_clip (some backend) action = do
    arguments ← lift (parsers.extract_clip action.arguments)
    source ← video_input action
    content ← in_directory (do
      write_bytes "input.mp4" source.content
      backend.extract_clip "input.mp4" "clip.mp4" arguments.start_seconds arguments.duration_seconds
      read_clip "clip.mp4")
    artifact ← keep_content arguments.output_artifact_id "video/mp4" content
    pure (dump_produced (told artifact))

  module _ {P : Type 0} (imaging : Imaging P) where
    unfoldable pub load_images :
        ContactSheetArguments → List String → Effect (Held S W) (List (Image P))
    load_images arguments [] = pure []
    load_images arguments (artifact_id ∷ inputs) = do
      artifact ← get_stored store artifact_id
      image ← lift (decoded_image imaging arguments artifact_id artifact)
      images ← load_images arguments inputs
      pure (image ∷ images)

    unfoldable pub make_contact_sheet : Handler S W
    unfolding load_images contact_sheet
    make_contact_sheet action = do
      arguments ← lift (parsers.contact_sheet action.arguments)
      lift (
          require (not (no_items action.inputs || ltb 64 (length action.inputs)))
            (value_error (words "make_contact_sheet requires between 1 and 64 images" ∷ [])))
      images ← load_images arguments action.inputs
      artifact ←
          keep_content arguments.output_artifact_id "image/jpeg"
            (imaging.jpeg (contact_sheet arguments images))
      pure (dump_produced (told artifact))
