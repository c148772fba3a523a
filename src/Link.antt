-- ===== src/Link.antt =====
-- backend/pipeline/stages/link.py: a record of the model's output becomes linked fields, and these
-- an opening. `none` as a result of linking is a `KeyError` of the gate. A reason is a code here
-- instead of a sentence; the keys of the project, the run and the rows are left out, and the counters
-- of hardware sets are those of `Hardware`.
pub mod Fields
pub mod Record
pub mod Opening
pub mod Hardware
pub mod Tests
use cbc_new.Prelude.{
  ℕ, zero, suc, ◌+◌, String, Bool, true, false, not, ◌&&◌, ◌||◌, Option, none, some, List, [], ◌∷◌,
  map, if◌then◌else◌, ◌==◌, is_empty, is_some, length,
}
use cbc_new.Prelude.Text.{Text}
use cbc_new.Prelude.Dict.{Dict, lookup, is_member}
use cbc_new.Prelude.Float.{Float, min_of, max_of}
use cbc_new.Prelude.Fuzz.{Fuzz}
use cbc_new.Gate.{
  Verdict, accept, accept_null, reject, RejectionCode, unknown_element, null_with_citation,
  value_without_citation, not_grounded, FieldVerdict, validate_field,
}
use cbc_new.Gate.Confidence.{Confidence, completeness_penalty, compose}
use text.Mathlib.Text.{◌==◌ as str_eq}

pub data ReviewState : Type 0 where
  auto flagged confirmed corrected rejected : ReviewState

-- Why a field is not simply accepted.
pub data Note : Type 0 where
  not_returned absent_unconfirmed below_floor unmeasured : Note
  refused : Option RejectionCode → Note

pub record LinkStats : Type 0 where
  pub fields_emitted : ℕ
  pub fields_accepted : ℕ
  pub fields_rejected_citation : ℕ
  pub fields_rejected_grounding : ℕ
  pub fields_flagged_low_confidence : ℕ
  pub fields_null_with_citation : ℕ
  pub openings_written : ℕ

pub record Bbox (F : Type 0) : Type 0 where
  pub x_min : F
  pub y_min : F
  pub x_max : F
  pub y_max : F

-- A row of `doc_elements`; a box whose `bbox_x_min` is null is `none`.
pub record ElementRow (F : Type 0) : Type 0 where
  pub ocr_confidence : Option F
  pub page_number : ℕ
  pub bbox : Option (Bbox F)

-- What the model returned for one field.
pub record Emitted (F : Type 0) : Type 0 where
  pub value : Option Text
  pub source_element_ids : List String
  pub confidence_llm : Option F

pub record LinkedField (F : Type 0) : Type 0 where
  pub name : String
  pub value : Option Text
  pub element_ids : List String
  pub review_state : ReviewState
  pub note : Option Note
  pub ocr_confidence : Option F
  pub llm_confidence : Option F
  pub penalty : F
  pub final_confidence : Option F
  pub grounding_score : Option F
  pub page_number : Option ℕ
  pub bbox : Option (Bbox F)

-- The settings of backend/shared/config.py that linking reads.
pub record Settings (F : Type 0) : Type 0 where
  pub confidence_threshold_default : F
  pub confidence_threshold_fire_rating : F
  pub confidence_threshold_handing : F
  pub grounding_min_ratio : ℕ

pub record Context (F : Type 0) : Type 0 where
  pub supplied_elements : Dict Text
  pub element_rows : Dict (ElementRow F)
  pub zero_tolerance : List String
  pub settings : Settings F

abbrev pub opening_fields : List String
opening_fields =
    "door_number" ∷ "size" ∷ "handing" ∷ "finish" ∷ "fire_rating" ∷ "hardware_group"
    ∷ "alternate_designation" ∷ []

abbrev pub zero_tolerance_fields : List String
zero_tolerance_fields = "fire_rating" ∷ "handing" ∷ []

module _ {F : Type 0} where
  unfoldable pub threshold_for : Settings F → String → F
  threshold_for s name =
      if str_eq name "fire_rating"
      then s.confidence_threshold_fire_rating
      else if str_eq name "handing"
      then s.confidence_threshold_handing
      else s.confidence_threshold_default

  -- `[element_rows[eid] for eid in ids if eid in element_rows]`
  unfoldable pub rows_of : List String → Dict (ElementRow F) → List (ElementRow F)
  rows_of [] rows = []
  rows_of (eid ∷ ids) rows =
      let rest = rows_of ids rows in elim (lookup eid rows) [ none ↦ rest | some r ↦ r ∷ rest ]

  unfoldable pub has_value : Option (Emitted F) → Bool
  has_value none = false
  has_value (some e) = elim (e.value) [ none ↦ false | some t ↦ not (is_empty t) ]

  unfoldable pub count_populated : Dict (Emitted F) → List String → ℕ
  unfolding has_value
  count_populated fields [] = 0
  count_populated fields (name ∷ names) =
      let rest = count_populated fields names in
      if has_value (lookup name fields) then suc rest else rest

  unfoldable pub boxes_of : List (ElementRow F) → List (Bbox F)
  boxes_of [] = []
  boxes_of (r ∷ rs) = let rest = boxes_of rs in elim (r.bbox) [ none ↦ rest | some b ↦ b ∷ rest ]

  unfoldable pub first_page : List (ElementRow F) → Option ℕ
  first_page [] = none
  first_page (r ∷ rs) = some r.page_number

unfoldable pub count_rejection : Option RejectionCode → LinkStats → LinkStats
count_rejection (some not_grounded) s = record s {
  fields_rejected_grounding = s.fields_rejected_grounding + 1;
}
count_rejection (some null_with_citation) s = record s {
  fields_null_with_citation = s.fields_null_with_citation + 1;
  fields_rejected_citation = s.fields_rejected_citation + 1;
}
count_rejection _ s = record s { fields_rejected_citation = s.fields_rejected_citation + 1 }

module _ (fl : Float) (fz : Fuzz (fl.F)) where
  open fl use {F, lt}

  unfoldable pub union_bbox : List (Bbox F) → Option (Bbox F)
  unfolding min_of max_of
  union_bbox [] = none
  union_bbox (b ∷ bs) = some (record {
    x_min = min_of fl b.x_min (map (λ (c : Bbox F). c.x_min) bs);
    y_min = min_of fl b.y_min (map (λ (c : Bbox F). c.y_min) bs);
    x_max = max_of fl b.x_max (map (λ (c : Bbox F). c.x_max) bs);
    y_max = max_of fl b.y_max (map (λ (c : Bbox F). c.y_max) bs);
  })

  -- The review state of an accepted value, with the note that goes with it.
  unfoldable pub review_value : Context F → String → Option F → ReviewState × Option Note
  review_value ctx name (some final) =
      if lt final (threshold_for ctx.settings name)
      then (flagged, some below_floor)
      else (auto, none)
  review_value ctx name none =
      if is_member name ctx.zero_tolerance then (flagged, some unmeasured) else (auto, none)

  unfoldable pub review_absence : Context F → String → ReviewState × Option Note
  review_absence ctx name =
      if is_member name ctx.zero_tolerance then (flagged, some absent_unconfirmed) else (auto, none)

  unfoldable pub review_of : Verdict → Context F → String → Option F → ReviewState × Option Note
  review_of accept_null ctx name final = review_absence ctx name
  review_of _ ctx name final = review_value ctx name final

  unfoldable pub count_accepted : Verdict → ReviewState → LinkStats → LinkStats
  count_accepted accept flagged s = record s {
    fields_accepted = s.fields_accepted + 1;
    fields_flagged_low_confidence = s.fields_flagged_low_confidence + 1;
  }
  count_accepted _ state s = record s { fields_accepted = s.fields_accepted + 1 }

  abbrev pub missing_field : F → String → LinkedField F
  missing_field penalty name = record {
    name = name;
    value = none;
    element_ids = [];
    review_state = flagged;
    note = some not_returned;
    ocr_confidence = none;
    llm_confidence = none;
    penalty = penalty;
    final_confidence = none;
    grounding_score = none;
    page_number = none;
    bbox = none;
  }

  unfoldable pub refused_field : F → String → Emitted F → FieldVerdict F → LinkedField F
  refused_field penalty name e v = record {
    name = name;
    value = e.value;
    element_ids = [];
    review_state = rejected;
    note = some (refused v.code);
    ocr_confidence = none;
    llm_confidence = e.confidence_llm;
    penalty = penalty;
    final_confidence = none;
    grounding_score = v.grounding_score;
    page_number = none;
    bbox = none;
  }

  unfoldable pub accepted_field :
      Context F → F → String → Emitted F → FieldVerdict F → LinkedField F
  accepted_field ctx penalty name e v =
      let rows = rows_of e.source_element_ids ctx.element_rows in
      let confidence =
        compose fl (map (λ (r : ElementRow F). r.ocr_confidence) rows) e.confidence_llm penalty in
      let (state, note) = review_of v.verdict ctx name confidence.final in
      record {
        name = name;
        value = e.value;
        element_ids = e.source_element_ids;
        review_state = state;
        note = note;
        ocr_confidence = confidence.ocr;
        llm_confidence = confidence.llm;
        penalty = penalty;
        final_confidence = confidence.final;
        grounding_score = v.grounding_score;
        page_number = first_page rows;
        bbox = union_bbox (boxes_of rows);
      }

  -- The part of the loop after the gate's verdict.
  unfoldable pub link_verdict :
      Context F → F → String → Emitted F → LinkStats → FieldVerdict F → LinkedField F × LinkStats
  link_verdict ctx penalty name e stats v = elim (v.verdict) [
    | reject ↦ (refused_field penalty name e v, count_rejection v.code stats)
    | other ↦
        let linked = accepted_field ctx penalty name e v in
        (linked, count_accepted v.verdict linked.review_state stats)
  ]

  -- One round of the loop over the names.
  unfoldable pub link_field :
      Context F → F → String → Option (Emitted F) → LinkStats → Option (LinkedField F × LinkStats)
  link_field ctx penalty name none stats = some (missing_field penalty name, stats)
  link_field ctx penalty name (some e) stats =
      elim (validate_field fl fz e.value e.source_element_ids ctx.supplied_elements
        ctx.settings.grounding_min_ratio) [
          | none ↦ none
          | some v ↦ some (
              link_verdict ctx penalty name e
                (record stats { fields_emitted = stats.fields_emitted + 1 }) v)
        ]

  unfoldable pub link_each :
      Context F
      → F
      → Dict (Emitted F)
      → List String
      → LinkStats
      → Option (List (LinkedField F) × LinkStats)
  link_each ctx penalty fields [] stats = some ([], stats)
  link_each ctx penalty fields (name ∷ names) stats =
      elim (link_field ctx penalty name (lookup name fields) stats) [
        | none ↦ none
        | some (linked, stats') ↦ elim (link_each ctx penalty fields names stats') [
          | none ↦ none
          | some (rest, final_stats) ↦ some (linked ∷ rest, final_stats)
        ]
      ]

  unfoldable pub link_fields :
      Context F
      → Dict (Emitted F)
      → List String
      → LinkStats
      → Option (List (LinkedField F) × LinkStats)
  link_fields ctx fields names stats =
      let penalty = completeness_penalty fl (count_populated fields names) (length names) in
      link_each ctx penalty fields names stats
