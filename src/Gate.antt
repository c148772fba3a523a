-- ===== src/Gate.antt =====
-- backend/pipeline/llm/validators/gate.py: the gate that a field of the model's output passes
-- before it becomes a fact. `none` as a result of `validate_field` is the `KeyError` of a lookup in
-- the supplied elements. The prose of a verdict (`detail`) is left out.
pub mod Grounding
pub mod Verdicts
pub mod Confidence
mod Tests
use cbc_new.Prelude.{
  ℕ, ◌*◌, String, Bool, true, false, not, ◌||◌, Option, none, some, List, [], ◌∷◌, map,
  if◌then◌else◌, ◌==◌, is_empty, keep,
}
use cbc_new.Prelude.Text.{Text, is_space, is_blank, strip, join, collapse}
use cbc_new.Prelude.Dict.{Dict, lookup, has_key}
use cbc_new.Prelude.Float.{Float}
use cbc_new.Prelude.Fuzz.{Fuzz}

pub data Verdict : Type 0 where
  accept accept_null reject : Verdict

pub data RejectionCode : Type 0 where
  unknown_element null_with_citation value_without_citation not_grounded : RejectionCode

pub record FieldVerdict (F : Type 0) : Type 0 where
  pub verdict : Verdict
  pub code : Option RejectionCode
  pub grounding_score : Option F
  pub unknown_ids : List String

unfoldable pub is_prefix : Text → Text → Bool
is_prefix [] t = true
is_prefix (c ∷ s) [] = false
is_prefix (c ∷ s) (d ∷ t) = if c == d then is_prefix s t else false

-- `needle in haystack`
unfoldable pub contains : Text → Text → Bool
unfolding is_prefix
contains n [] = is_prefix n []
contains n (c ∷ s) = is_prefix n (c ∷ s) || contains n s

-- `value is None or str(value).strip() == ""`
unfoldable pub is_null : Option Text → Bool
unfolding is_blank
is_null none = true
is_null (some t) = is_blank t

-- The texts of the cited elements, in the order of the citations.
unfoldable pub texts_of : List String → Dict Text → Option (List Text)
texts_of [] supplied = some []
texts_of (eid ∷ ids) supplied =
    let rest = texts_of ids supplied in
    elim (lookup eid supplied) [
      | none ↦ none
      | some t ↦ elim rest [ none ↦ none | some ts ↦ some (t ∷ ts) ]
    ]

unfoldable pub unknown_ids : List String → Dict Text → List String
unfolding has_key
unknown_ids ids supplied = keep (λ eid. not (has_key eid supplied)) ids

module _ {F : Type 0} where
  abbrev pub refusal : RejectionCode → Option F → List String → FieldVerdict F
  refusal code score unknown = record {
    verdict = reject;
    code = some code;
    grounding_score = score;
    unknown_ids = unknown;
  }

  abbrev pub absence : FieldVerdict F
  absence = record { verdict = accept_null; code = none; grounding_score = none; unknown_ids = [] }

  abbrev pub passed : F → FieldVerdict F
  passed score = record {
    verdict = accept;
    code = none;
    grounding_score = some score;
    unknown_ids = [];
  }

module _ (fl : Float) (fz : Fuzz (fl.F)) where
  open fl use {F, decimal, lt}

  unfoldable pub normalise : Text → Text
  unfolding collapse strip
  normalise text =
      strip (
        collapse false (map (λ c. if fz.is_word c || is_space c then c else 32) (fz.casefold text)))

  unfoldable pub grounding_score : Text → Text → F
  unfolding contains
  grounding_score value cited_text =
      let needle = normalise value in
      let haystack = normalise cited_text in
      if is_empty needle
      then decimal 0
      else if is_empty haystack
      then decimal 0
      else if contains needle haystack
      then decimal 1_000_000
      else fz.partial_ratio needle haystack

  -- `score >= min_ratio`
  unfoldable pub grounded : Text → Text → ℕ → Bool × F
  grounded value cited_text min_ratio =
      let score = grounding_score value cited_text in
      (not (lt score (decimal (min_ratio * 10_000))), score)

  -- The second check, on a value with citations that are all supplied.
  unfoldable pub check_grounding :
      Option Text → List String → Dict Text → ℕ → Option (FieldVerdict F)
  unfolding texts_of grounded
  check_grounding none ids supplied min_ratio = some absence
  check_grounding (some value) ids supplied min_ratio = elim (texts_of ids supplied) [
    | none ↦ none
    | some texts ↦
        let (is_grounded, score) = grounded value (join texts) min_ratio in
        some (if is_grounded then passed score else refusal not_grounded (some score) [])
  ]

  unfoldable pub validate_field :
      Option Text → List String → Dict Text → ℕ → Option (FieldVerdict F)
  unfolding unknown_ids is_null check_grounding
  validate_field value ids supplied min_ratio =
      let unknown = unknown_ids ids supplied in
      if not (is_empty unknown)
      then some (refusal unknown_element none unknown)
      else if is_null value
      then (if not (is_empty ids) then some (refusal null_with_citation none []) else some absence)
      else if is_empty ids
      then some (refusal value_without_citation none [])
      else check_grounding value ids supplied min_ratio
