-- ===== src/Operators/Media.antt =====
-- operators/media.py: the ffmpeg backend and its probe, and the arguments of the media operators. The
-- process runner, the look-up of an executable, the format of a float and the parts of a text that
-- Python's methods give are parameters.
pub mod Sheet
pub mod Handlers
pub mod Layout
mod Tests
use Prim.Native.String.{◌++◌ as str_append}
use text.Mathlib.Text.{starts_with}
use infra_joint_planner.Prelude.{
  ℕ, String, Bool, true, false, List, [], ◌∷◌, Option, none, some, eqb, ◌==◌, if◌then◌else◌,
}
use infra_joint_planner.Prelude.Decimal.{decimal}
use infra_joint_planner.Core.Errors.{Exception, Result, ok, err, words, media_execution_error}
use infra_joint_planner.Core.Json.{Float}
use infra_joint_planner.Core.Action.{truthy}
use infra_joint_planner.Effects.{Effect, pure, raise, lift, ◌>>=◌, ◌>>◌}

pub record CommandResult : Type 0 where
  pub return_code : ℕ
  pub stdout : String
  pub stderr : String

abbrev pub AsyncCommandRunner : Type 0 → Type 0
AsyncCommandRunner W = List String → Effect W CommandResult

pub record FfmpegCapability : Type 0 where
  pub available : Bool
  pub executable : Option String
  pub version : Option String
  pub reason : Option String

-- Python's methods on texts: `strip`, `splitlines`, `casefold`, the last characters, and `:g`.
pub record Formats : Type 0 where
  pub strip : String → String
  pub splitlines : String → List String
  pub casefold : String → String
  pub last_characters : ℕ → String → String
  pub general : Float → String
  pub str_of : Exception → String

pub record SampleFramesArguments : Type 0 where
  pub every_seconds : Float
  pub max_frames : ℕ
  pub output_prefix : String

pub record ExtractClipArguments : Type 0 where
  pub start_seconds : Float
  pub duration_seconds : Float
  pub output_artifact_id : String

pub record ContactSheetArguments : Type 0 where
  pub columns : ℕ
  pub cell_width : ℕ
  pub cell_height : ℕ
  pub output_artifact_id : String

-- Paths are texts.
pub record MediaBackend (W : Type 0) : Type 0 where
  pub sample_frames : String → String → Float → ℕ → Effect W (Unit {0})
  pub extract_clip : String → String → Float → Float → Effect W (Unit {0})

abbrev first_line : List String → String
first_line [] = ""
first_line (line ∷ lines) = line

abbrev or_which : Option String → Option String → Option String
or_which executable which = if truthy executable then executable else which

abbrev unavailable : String → String → FfmpegCapability
unavailable executable reason = record {
  available = false;
  executable = some executable;
  version = none;
  reason = some reason;
}

module _ {W : Type 0} (formats : Formats) (runner : AsyncCommandRunner W) where
  abbrev version_capability : String → CommandResult → FfmpegCapability
  version_capability executable result =
      let line = first_line (formats.splitlines result.stdout) in
      if eqb result.return_code 0
      then (if starts_with (formats.casefold line) "ffmpeg version"
          then (record {
            available = true;
            executable = some executable;
            version = some line;
            reason = none;
          })
          else unavailable executable "unexpected ffmpeg version output")
      else unavailable executable (formats.strip result.stderr)

  -- The `except OSError` around the run of the executable.
  abbrev probed : (Exception → Bool) → String → Result CommandResult → Result FfmpegCapability
  probed is_os_error executable (ok result) = ok (version_capability executable result)
  probed is_os_error executable (err e) =
      if is_os_error e then ok (unavailable executable (formats.str_of e)) else err e

  unfoldable pub probe_ffmpeg :
      (Exception → Bool) → Option String → Option String → Effect W FfmpegCapability
  probe_ffmpeg is_os_error which executable = elim (or_which executable which) [
    | none ↦ pure (record {
      available = false;
      executable = none;
      version = none;
      reason = some "ffmpeg executable was not found";
    })
    | some resolved ↦ λ w.
        let (r, w') = runner (resolved ∷ "-version" ∷ []) w in (probed is_os_error resolved r, w')
  ]

  -- `_execute`
  unfoldable pub execute_command : List String → Effect W (Unit {0})
  execute_command arguments = do
    result ← runner arguments
    if eqb result.return_code 0
        then pure tt
        else raise (
            media_execution_error (
              words "ffmpeg failed: "
              ∷ words (formats.last_characters 2000 (formats.strip result.stderr))
              ∷ []))

  abbrev quiet : String → List String → List String
  quiet executable arguments =
      executable ∷ "-nostdin" ∷ "-hide_banner" ∷ "-loglevel" ∷ "error" ∷ arguments

  unfoldable pub ffmpeg_sample_frames : String → String → String → Float → ℕ → Effect W (Unit {0})
  unfolding execute_command
  ffmpeg_sample_frames executable input_path output_pattern every_seconds max_frames =
      execute_command (
        quiet executable (
          "-i"
          ∷ input_path
          ∷ "-vf"
          ∷ str_append "fps=1/" (formats.general every_seconds)
          ∷ "-frames:v"
          ∷ decimal max_frames
          ∷ "-q:v"
          ∷ "2"
          ∷ "-y"
          ∷ output_pattern
          ∷ []))

  unfoldable pub ffmpeg_extract_clip :
      String → String → String → Float → Float → Effect W (Unit {0})
  unfolding execute_command
  ffmpeg_extract_clip executable input_path output_path start_seconds duration_seconds =
      execute_command (
        quiet executable (
          "-ss"
          ∷ formats.general start_seconds
          ∷ "-i"
          ∷ input_path
          ∷ "-t"
          ∷ formats.general duration_seconds
          ∷ "-map"
          ∷ "0:v:0"
          ∷ "-map"
          ∷ "0:a?"
          ∷ "-c"
          ∷ "copy"
          ∷ "-y"
          ∷ output_path
          ∷ []))

  -- `FfmpegMediaBackend`
  abbrev pub ffmpeg_backend : String → MediaBackend W
  ffmpeg_backend executable = record {
    sample_frames = ffmpeg_sample_frames executable;
    extract_clip = ffmpeg_extract_clip executable;
  }
