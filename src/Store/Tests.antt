-- ===== src/Store/Tests.antt =====
-- Artifacts that are put into the stores and got back.
use infra_joint_planner.Prelude.{String, refl, true, some}
use infra_joint_planner.Model.{Bytes}
use infra_joint_planner.Api.{ArtifactMetadata}
use infra_joint_planner.Store.Interface.{IsLawful}
use infra_joint_planner.Store.Instances.{memory, memory-IsLawful, files, files-IsLawful}
use infra_joint_planner.Store.Files.{Codec}

abbrev sum : Bytes → String
sum content = "sum"

-- Texts that are the metadata that they stand for.
abbrev codec : Codec ArtifactMetadata
codec = record {
  dump = λ m. m;
  parse = λ m. some m;
  parse-dump = λ m. refl;
  checksum = λ s. true;
  file_key = λ i. "key";
}

memory-IsLawful_example : IsLawful sum memory
memory-IsLawful_example = memory-IsLawful sum

files-IsLawful_example : IsLawful sum (files sum codec)
files-IsLawful_example = files-IsLawful sum codec
