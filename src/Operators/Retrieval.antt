-- ===== src/Operators/Retrieval.antt =====
-- operators/retrieval.py: the ranking of documents by BM25. The tokens of a text, the logarithm and the
-- arithmetic on floats are parameters.
use infra_joint_planner.Prelude.{
  ℕ, suc, ◌+◌, String, Bool, not, ◌&&◌, ◌||◌, List, [], ◌∷◌, Option, some, ◌==◌, eqb, leb, length,
  map, take, count_of, if◌then◌else◌,
}
use infra_joint_planner.Prelude.Text.{elem}
use infra_joint_planner.Prelude.Sorting.{sort_by}
use infra_joint_planner.Core.Errors.{Result, ok, err, words, name, traverse, value_error}
use infra_joint_planner.Core.Json.{Float, Json, float, str, Fields, get_field}
use infra_joint_planner.Core.Action.{SemanticAction}
use infra_joint_planner.Effects.{Effect, raise, lift, ◌>>=◌}
use infra_joint_planner.Store.Interface.{ArtifactStore}
use infra_joint_planner.Worker.{Held, Handler}
use infra_joint_planner.Operators.Records.{Codec, load_records, produce}
use infra_joint_planner.Operators.Structured.{set_field}

pub record Bm25Arguments : Type 0 where
  pub query : String
  pub top_k : ℕ
  pub text_field : String
  pub output_artifact_id : String
  pub k1 : Float
  pub b : Float

-- `tokenize` is `TOKEN_PATTERN.findall(text.casefold())`. `idf documents containing` is the logarithm's
-- value, `term idf frequency k1 b length average` the token's part of a score, and `average` divides a
-- total by a number of documents, with 1.0 for zero.
pub record Scoring : Type 0 where
  pub tokenize : String → List String
  pub average : ℕ → ℕ → Float
  pub idf : ℕ → ℕ → Float
  pub term : Float → ℕ → Float → Float → ℕ → Float → Float
  pub plus : Float → Float → Float
  pub zero_score : Float
  pub negative_less : Float → Float → Bool

-- `Counter(document)[token]`
abbrev pub frequency : String → List String → ℕ
frequency token document = count_of (λ t. t == token) document

-- The number of documents that have the token.
abbrev pub document_frequency : String → List (List String) → ℕ
document_frequency token documents = count_of (λ d. elem token d) documents

abbrev pub total_length : List (List String) → ℕ
total_length [] = 0
total_length (d ∷ documents) = length d + total_length documents

module _ (scoring : Scoring) where
  unfoldable pub score_from :
      List (List String) → Float → Float → List String → List String → Float → Float
  score_from documents k1 b document [] score = score
  score_from documents k1 b document (token ∷ query) score =
      let average = scoring.average (total_length documents) (length documents) in
      let idf = scoring.idf (length documents) (document_frequency token documents) in
      let part = scoring.term idf (frequency token document) k1 b (length document) average in
      let next = if eqb (frequency token document) 0 then score else scoring.plus score part in
      score_from documents k1 b document query next

  -- `_bm25_scores`
  unfoldable pub bm25_scores : List (List String) → List String → Float → Float → List Float
  unfolding score_from
  bm25_scores documents query k1 b =
      map (λ document. score_from documents k1 b document query scoring.zero_score) documents

  -- A document with its score and its index.
  pub record Ranked : Type 0 where
    pub index : ℕ
    pub score : Float
    pub document : Fields

  abbrev pub ranked_from : ℕ → List Float → List Fields → List Ranked
  ranked_from index (s ∷ scores) (d ∷ documents) =
      record { index = index; score = s; document = d } ∷ ranked_from (suc index) scores documents
  ranked_from index _ _ = []

  -- `(-score, index)` in the order of tuples
  abbrev pub rank_before : Ranked → Ranked → Bool
  rank_before r s =
      scoring.negative_less r.score s.score
      || (not (scoring.negative_less s.score r.score) && leb r.index s.index)

  abbrev pub with_score : Ranked → Fields
  with_score r = set_field "_bm25_score" (float r.score) r.document

  unfoldable pub rank : Bm25Arguments → List String → List Fields → List Fields
  unfolding bm25_scores
  rank arguments texts records = map with_score (
      take arguments.top_k (
        sort_by rank_before (
          ranked_from 0
            (bm25_scores (map scoring.tokenize texts) (scoring.tokenize arguments.query)
              arguments.k1 arguments.b)
            records)))

  abbrev pub text_of : String → Option Json → Result String
  text_of f (some (str text)) = ok text
  text_of f _ = err (value_error (words "document field must be text: " ∷ name f ∷ []))

  module _ {S W : Type 0} (parse : Fields → Result Bm25Arguments) (codec : Codec)
      (store : ArtifactStore S) where
    abbrev retrieve : SemanticAction → List String → Effect (Held S W) Json
    retrieve action (input ∷ []) = do
      arguments ← lift (parse action.arguments)
      records ← load_records codec store input
      texts ←
          lift (
            traverse (λ d. text_of arguments.text_field (get_field arguments.text_field d)) records)
      produce codec store arguments.output_artifact_id (rank arguments texts records)
    retrieve action _ =
        raise (value_error (words "bm25_retrieve requires exactly one corpus artifact" ∷ []))

    unfoldable pub bm25_retrieve : Handler S W
    unfolding rank
    bm25_retrieve action = retrieve action action.inputs
