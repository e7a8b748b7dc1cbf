-- ===== src/Model/Preflight.antt =====
-- The resolver's check before a transfer and the worker's check before a request agree.
use Prim.Native.String.{len, ◌++◌ as str_append}
use Prim.Native.String.append
use Prim.Native.Char.{Char, code}
use text.Mathlib.Text.{starts_with}
use text.Mathlib.TextEquality.{starts_with_iff}
use text.Mathlib.TextLemmas.{head-eq_of_cons-eq}
use mathlib.Core.Path.{subst}
use mathlib.Core.Bool.{false≢true}
use infra_joint_planner.Prelude.{
  ℕ, ◌+◌, ◌≤◌, String, ◌≡◌, ◌≢◌, refl, sym, ◌∙◌, ap, ◌⊎◌, inl, inr, true, false, not, List, [], ◌∷◌,
  Option, none, some, arith, length, All, In, Bool-cases, keep,
}
use infra_joint_planner.Prelude.Text.{elem, elem→In}
use infra_joint_planner.Prelude.Dict.{Dict, lookup}
use infra_joint_planner.Core.Errors.{ok, traverse, >>=-eq-ok, Message, ResolutionErrorCode}
use infra_joint_planner.Core.Json.{Json, Fields, str, get_field}
use infra_joint_planner.Core.Action.{SemanticAction}
use infra_joint_planner.Core.State.{
  ArtifactRuntimeState, DeploymentSpec, InfrastructureState, distinct,
}
use infra_joint_planner.Resolver.{
  artifacts_by_id, artifact_estimate, estimate_inputs, context_error, prompt_of,
  model_request_error, image_type, then_estimate, is_empty,
}
use infra_joint_planner.Model.{
  ModelArtifact, ModelRequest, is_text_media_type, artifact_modality, Decoder, sum,
  artifact_token_upper_bound, preflight_model_request,
}

-- A text with a prefix begins with that prefix's first character.
head_of_prefix :
    (c : Char) (s u m : String)
    → str_append (String.◌∷◌ c s) u ≡ m
    → m ≡ String.◌∷◌ c (str_append s u)
head_of_prefix c s u m e = sym e ∙ append.cons c s u

not_both_heads :
    (c d : Char) (s t m : String) → m ≡ String.◌∷◌ c s → m ≡ String.◌∷◌ d t → code c ≢ code d → ⊥
not_both_heads c d s t m h k ne = ne (ap code (head-eq_of_cons-eq (sym h ∙ k)))

not_text_prefix : (m : String) → starts_with m "image/" ≡ true → starts_with m "text/" ≡ true → ⊥
not_text_prefix m h k =
    let (u, e) = (starts_with_iff m "image/").0 h in
    let (v, e') = (starts_with_iff m "text/").0 k in
    not_both_heads "i" "t" (str_append "mage/" u) (str_append "ext/" v) m
      (head_of_prefix "i" "mage/" u m e) (head_of_prefix "t" "ext/" v m e') (omega arith)

json_types : List String
json_types = "application/json" ∷ "application/jsonl" ∷ "application/x-ndjson" ∷ []

no_json_image : (m : String) → image_type m ≡ true → ¬ In m json_types
unfolding json_types
no_json_image m h (inl e) = false≢true (subst (λ t. image_type t ≡ true) e h)
no_json_image m h (inr (inl e)) = false≢true (subst (λ t. image_type t ≡ true) e h)
no_json_image m h (inr (inr (inl e))) = false≢true (subst (λ t. image_type t ≡ true) e h)
no_json_image m h (inr (inr (inr n))) = n

not_json_type : (m : String) → image_type m ≡ true → elem m json_types ≡ false
not_json_type m h = elim (Bool-cases (elem m json_types)) [
  | inl j ↦ absurd (no_json_image m h (elem→In m json_types j))
  | inr j ↦ j
]

image-not-text : (m : String) → image_type m ≡ true → is_text_media_type m ≡ false
unfolding is_text_media_type json_types
image-not-text m h = elim (Bool-cases (starts_with m "text/")) [
  | inl t ↦ absurd (not_text_prefix m h t)
  | inr t ↦ rw (t, not_json_type m h)
]

module _ (utf8 : Decoder) (d : DeploymentSpec) where
  -- The worker holds the artifact that the state describes, and a text artifact is valid UTF-8.
  pub record IsStocked (r : ArtifactRuntimeState) (a : ModelArtifact) : Type 0 where
    pub media_type : r.media_type ≡ some a.media_type
    pub size : r.size_bytes ≡ some (length a.content)
    pub readable :
        is_text_media_type a.media_type ≡ true → (t : String) × (utf8.decode a.content ≡ some t)

  -- What the worker computes for one artifact that the resolver counts as `n`.
  record Agrees (a : ModelArtifact) (n : ℕ) : Type 0 where
    modality : String
    known : artifact_modality a.media_type ≡ ok modality
    supported : elem modality d.modalities ≡ true
    bound : artifact_token_upper_bound utf8 a d.image_token_cost ≡ ok n

  image-Agrees :
      (a : ModelArtifact) (n : ℕ)
      → image_type a.media_type ≡ true
      → elem "image" d.modalities ≡ true
      → n ≡ d.image_token_cost
      → Agrees a n
  unfolding artifact_modality artifact_token_upper_bound
  image-Agrees a n h i e =
      let t = image-not-text a.media_type h in
      record { modality = "image"; known = rw (t, h); supported = i; bound = rw (t, h, e) }

  text-Agrees :
      (a : ModelArtifact) (n : ℕ)
      → elem "text" d.modalities ≡ true
      → is_text_media_type a.media_type ≡ true
      → (t : String) × (utf8.decode a.content ≡ some t)
      → n ≡ length a.content
      → Agrees a n
  unfolding artifact_modality artifact_token_upper_bound
  text-Agrees a n tm h (t, e) l = record {
    modality = "text";
    known = rw h;
    supported = tm;
    bound = rw (h, e, utf8.decode-length a.content t e, l);
  }

  estimate_cases :
      (i : String) (r : ArtifactRuntimeState) (m : String) (size n : ℕ)
      → r.media_type ≡ some m
      → r.size_bytes ≡ some size
      → artifact_estimate d i r ≡ inl n
      → (image_type m ≡ true) × (elem "image" d.modalities ≡ true) × (n ≡ d.image_token_cost)
        ⊎ (is_text_media_type m ≡ true) × (n ≡ size)
  unfolding artifact_estimate is_text_media_type
  estimate_cases i r m size n e e' h = ground arith

  artifact-Agrees :
      (i : String) (r : ArtifactRuntimeState) (a : ModelArtifact) (n : ℕ)
      → elem "text" d.modalities ≡ true
      → IsStocked r a
      → artifact_estimate d i r ≡ inl n
      → Agrees a n
  artifact-Agrees i r a n tm s h =
      elim (estimate_cases i r a.media_type (length a.content) n s.media_type s.size h) [
        | inl (image, supported, e) ↦ image-Agrees a n image supported e
        | inr (is_text, e) ↦ text-Agrees a n tm is_text (s.readable is_text) e
      ]

  -- The worker holds every input, in the order of the action.
  abbrev pub Stocks : Dict ArtifactRuntimeState → List String → List ModelArtifact → Type 0
  Stocks known [] [] = Unit
  Stocks known (i ∷ inputs) (a ∷ artifacts) =
      ((r : ArtifactRuntimeState) × (lookup i known ≡ some r) × IsStocked r a)
      × Stocks known inputs artifacts
  Stocks known _ _ = ⊥

  -- What the worker computes for all of them that the resolver counts as `n`.
  record AllAgree (artifacts : List ModelArtifact) (n : ℕ) : Type 0 where
    modalities : List String
    known :
        traverse (λ (item : ModelArtifact). artifact_modality item.media_type) artifacts
        ≡ ok modalities
    supported : All (λ m. elem m d.modalities ≡ true) modalities
    bounds : List ℕ
    bounded :
        traverse (λ item. artifact_token_upper_bound utf8 item d.image_token_cost) artifacts
        ≡ ok bounds
    total : sum bounds ≡ n

  AllAgree-cons :
      (a : ModelArtifact) (artifacts : List ModelArtifact) (n m total : ℕ)
      → Agrees a n
      → AllAgree artifacts m
      → n + m ≡ total
      → AllAgree (a ∷ artifacts) total
  unfolding traverse
  AllAgree-cons a artifacts n m total one rest e = record {
    modalities = one.modality ∷ rest.modalities;
    known = rw (one.known, rest.known);
    supported = (one.supported, rest.supported);
    bounds = n ∷ rest.bounds;
    bounded = rw (one.bound, rest.bounded);
    total = omega (arith, rest.total);
  }

  estimate-cons :
      (known : Dict ArtifactRuntimeState) (i : String) (inputs : List String) (est total : ℕ)
      (r : ArtifactRuntimeState)
      → lookup i known ≡ some r
      → estimate_inputs d known est (i ∷ inputs) ≡ ok (inl total)
      → (n : ℕ) × (artifact_estimate d i r ≡ inl n)
        × (estimate_inputs d known (est + n) inputs ≡ ok (inl total))
  unfolding estimate_inputs
  estimate-cons known i inputs est total r e h = split (artifact_estimate d i r) refl (rw e at h)
    where
      split :
          (x : ℕ ⊎ (ResolutionErrorCode × Message))
          → artifact_estimate d i r ≡ x
          → then_estimate x (λ n. estimate_inputs d known (est + n) inputs) ≡ ok (inl total)
          → (n : ℕ) × (artifact_estimate d i r ≡ inl n)
            × (estimate_inputs d known (est + n) inputs ≡ ok (inl total))
      split (inl n) e' k = (n, e', k)
      split (inr x) e' k = absurd (cc)

  all_agree :
      (known : Dict ArtifactRuntimeState) (inputs : List String) (artifacts : List ModelArtifact)
      (est total : ℕ)
      → elem "text" d.modalities ≡ true
      → Stocks known inputs artifacts
      → estimate_inputs d known est inputs ≡ ok (inl total)
      → (n : ℕ) × (est + n ≡ total) × AllAgree artifacts n
  unfolding estimate_inputs traverse
  all_agree known [] [] est total tm s h = (
    0,
    ground arith,
    record {
      modalities = [];
      known = refl;
      supported = tt;
      bounds = [];
      bounded = refl;
      total = refl;
    },
  )
  all_agree known [] (a ∷ artifacts) est total tm s h = absurd s
  all_agree known (i ∷ inputs) [] est total tm s h = absurd s
  all_agree known (i ∷ inputs) (a ∷ artifacts) est total tm ((r, at, stocked), s) h =
      let (n, e, h') = estimate-cons known i inputs est total r at h in
      let (m, e', rest) = all_agree known inputs artifacts (est + n) total tm s h' in
      (
        n + m,
        omega arith,
        AllAgree-cons a artifacts n m (n + m) (artifact-Agrees i r a n tm stocked e) rest refl,
      )

  All-supported :
      (ms : List String)
      → All (λ m. elem m d.modalities ≡ true) ms
      → is_empty (keep (λ m. not (elem m d.modalities)) (distinct ms)) ≡ true
  unfolding keep distinct
  All-supported [] h = refl
  All-supported (m ∷ ms) h = ground (arith, All-supported ms h.1)

  preflight_of_agree :
      (request : ModelRequest) (m n : ℕ)
      → elem "text" d.modalities ≡ true
      → AllAgree request.artifacts m
      → len request.prompt + m ≡ n
      → n + d.reserved_output_tokens ≤ d.context_window
      → preflight_model_request utf8 request d.modalities d.context_window d.reserved_output_tokens
          d.image_token_cost
        ≡ ok n
  unfolding preflight_model_request
  preflight_of_agree request m n tm all e fits =
      rw (all.known, tm, All-supported all.modalities all.supported, all.bounded, all.total, e)
        (ground arith)

  admitted_estimate :
      (x : ℕ ⊎ (ResolutionErrorCode × Message))
      → context_error d x ≡ none
      → (n : ℕ) × (x ≡ inl n) × (n + d.reserved_output_tokens ≤ d.context_window)
  admitted_estimate (inl n) h = (n, refl, ground arith)
  admitted_estimate (inr e) h = absurd (cc)

prompt-is :
    (render : Json → String) (arguments : Fields) (prompt : String)
    → get_field "prompt" arguments ≡ some (str prompt)
    → prompt_of render arguments ≡ prompt
prompt-is render arguments prompt p = rw (p, prompt_of)

some-none : {a b : Option (ResolutionErrorCode × Message)} → ok a ≡ ok b → a ≡ b
some-none h = cc

-- When the resolver admits a deployment for an action, the worker's preflight accepts the request that
-- it builds from it, with an estimate that fits the context window: the worker holds the inputs as the
-- state describes them, its text artifacts are valid UTF-8, the prompt is a text, and the deployment
-- supports text.
pub preflight-resolver :
    (utf8 : Decoder) (d : DeploymentSpec) (render : Json → String) (action : SemanticAction)
    (state : InfrastructureState) (prompt : String) (artifacts : List ModelArtifact)
    (limit : Option ℕ)
    → elem "text" d.modalities ≡ true
    → get_field "prompt" action.arguments ≡ some (str prompt)
    → Stocks utf8 d (artifacts_by_id state) action.inputs artifacts
    → model_request_error render d action state ≡ ok none
    → (n : ℕ) × (preflight_model_request utf8
          (record { prompt = prompt; artifacts = artifacts; max_output_tokens = limit })
          d.modalities
          d.context_window
          d.reserved_output_tokens
          d.image_token_cost
        ≡ ok n)
      × (n + d.reserved_output_tokens ≤ d.context_window)
unfolding model_request_error
preflight-resolver utf8 d render action state prompt artifacts limit tm p s h =
    let known = artifacts_by_id state in
    let estimate =
      estimate_inputs d known (len (prompt_of render action.arguments)) action.inputs in
    let (x, e, h') = >>=-eq-ok estimate _ h in
    let (n, e', fits) = admitted_estimate utf8 d x (some-none h') in
    let start =
      ap (λ (q : String). estimate_inputs d known (len q) action.inputs)
        (sym (prompt-is render action.arguments prompt p)) in
    let (m, e'', all) =
      all_agree utf8 d known action.inputs artifacts (len prompt) n tm s
        (start ∙ e ∙ ap (λ y. ok y) e') in
    (n, preflight_of_agree utf8 d _ m n tm all e'' fits, fits)
