-- ===== src/Link/Tests.antt =====
-- Runs of linking, and its theorems at inputs.
use cbc_new.Prelude.{
  Option, ◌+◌, ℕ, ◌≡◌, refl, true, false, none, some, List, ◌∷◌, [], String, All, map, length,
}
use cbc_new.Prelude.Text.{Text, codes, is_blank, strip, to_upper, collapse, join, is_listed, number}
use cbc_new.Prelude.Regex.{match}
use cbc_new.Prelude.Int.{pos}
use cbc_new.Pricing.Rounding.{Decimal}
use cbc_new.Prelude.Dict.{Dict, lookup, has_key, is_member}
use cbc_new.Prelude.Float.{basis_points, min, max, min_of, max_of}
use cbc_new.Prelude.Fuzz.{ascii}
use cbc_new.Gate.{
  is_prefix, contains, is_null, texts_of, unknown_ids, normalise, grounding_score, grounded,
  check_grounding, validate_field,
}
use cbc_new.Gate.Confidence.{compose, completeness_penalty, measured, lowest, final_of}
use cbc_new.Parsers.Size
use cbc_new.Parsers.Handing
use cbc_new.Parsers.FireRating
use cbc_new.Link.{
  auto, LinkStats, Emitted, LinkedField, Settings, Context, zero_tolerance_fields, threshold_for,
  rows_of, has_value, count_populated, boxes_of, first_page, count_rejection, union_bbox,
  review_value, review_absence, review_of, count_accepted, refused_field, accepted_field,
  link_verdict, link_field, link_each, link_fields,
}
use cbc_new.Link.Fields.{IsLinked}
use cbc_new.Link.Record.{
  link_fields_complete, link_fields-IsLinked, IsBalanced, link_fields-IsBalanced,
}
use cbc_new.Link.Opening.{
  ModelRecord, Opening, is_rejected, is_flagged, or_none, by_name, raw, door_number_of,
  opening_needs_review, count_opening, opening_of, persist_opening,
}
use cbc_new.Link.Opening.Review.{IsSettled, persist_opening-IsSettled}
use cbc_new.Link.Hardware.{
  HardwareStats, IsWritten, link_component, component_fields, description_of, parse_quantity,
  digits_of, fraction_of, component_row, component_rows, persist_hardware_set, described,
  persist_hardware_set-IsWritten,
}

gate_runs : Unit {0}
unfolding validate_field check_grounding grounded grounding_score normalise unknown_ids texts_of
    is_null contains is_prefix is_blank strip collapse lookup has_key compose measured lowest
    final_of min_of min max completeness_penalty max_of is_member join
gate_runs = tt

link_runs : Unit {0}
unfolding gate_runs threshold_for rows_of has_value count_populated boxes_of first_page
    count_rejection union_bbox review_value review_absence review_of count_accepted refused_field
    accepted_field link_verdict link_field link_each link_fields
link_runs = tt

opening_runs : Unit {0}
unfolding is_rejected is_flagged or_none by_name raw door_number_of opening_needs_review
    count_opening opening_of persist_opening is_blank strip to_upper collapse number is_listed match
    Size.parse_size Size.read_size Size.from_digits Size.from_feet_inches Handing.parse_handing
    Handing.find_canonical Handing.letters Handing.states_absence FireRating.parse_fire_rating
    FireRating.read_rating FireRating.tidy FireRating.from_hours FireRating.whole_hours
    FireRating.to_minutes FireRating.from_label FireRating.normalise FireRating.is_rated
    FireRating.flag
opening_runs = tt

abbrev settings : Settings ℕ
settings = record {
  confidence_threshold_default = 8500;
  confidence_threshold_fire_rating = 9500;
  confidence_threshold_handing = 9500;
  grounding_min_ratio = 90;
}

abbrev ctx : Context ℕ
ctx = record {
  supplied_elements = ("e1", codes "101A") ∷ ("e2", codes "20 MIN") ∷ [];
  element_rows = ("e2", record { ocr_confidence = some 9900; page_number = 4; bbox = none }) ∷ [];
  zero_tolerance = zero_tolerance_fields;
  settings = settings;
}

abbrev pub no_counts : LinkStats
no_counts = record {
  fields_emitted = 0;
  fields_accepted = 0;
  fields_rejected_citation = 0;
  fields_rejected_grounding = 0;
  fields_flagged_low_confidence = 0;
  fields_null_with_citation = 0;
  openings_written = 0;
}

abbrev fields : Dict (Emitted ℕ)
fields =
    (
      "fire_rating",
      record {
        value = some (codes "20 min");
        source_element_ids = "e2" ∷ [];
        confidence_llm = some 9800;
      },
    )
    ∷ (
      "door_number",
      record {
        value = some (codes "102");
        source_element_ids = "e1" ∷ [];
        confidence_llm = some 9900;
      },
    )
    ∷ []

abbrev names : List String
names = "fire_rating" ∷ "door_number" ∷ []

abbrev rating_field : LinkedField ℕ
rating_field = record {
  name = "fire_rating";
  value = some (codes "20 min");
  element_ids = "e2" ∷ [];
  review_state = auto;
  note = none;
  ocr_confidence = some 9900;
  llm_confidence = some 9800;
  penalty = 10_000;
  final_confidence = some 9800;
  grounding_score = some 1_000_000;
  page_number = some 4;
  bbox = none;
}

link_fields_complete_example :
    (linked : List (LinkedField ℕ)) × (stats : LinkStats) × (link_fields basis_points ascii ctx
        fields names no_counts
      ≡ some (linked, stats))
    × (map (λ (l : LinkedField ℕ). l.name) linked ≡ names)
link_fields_complete_example = link_fields_complete basis_points ascii ctx fields names no_counts

abbrev one_emitted : LinkStats
one_emitted = record no_counts { fields_emitted = 1; fields_accepted = 1 }

linked_run :
    link_fields basis_points ascii ctx fields ("fire_rating" ∷ []) no_counts
    ≡ some (rating_field ∷ [], one_emitted)
unfolding link_runs
linked_run = refl

link_fields-IsLinked_example : All (IsLinked basis_points ascii ctx) (rating_field ∷ [])
link_fields-IsLinked_example =
    link_fields-IsLinked basis_points ascii ctx fields ("fire_rating" ∷ []) no_counts
      (rating_field ∷ []) one_emitted linked_run

link_fields-IsBalanced_example : IsBalanced no_counts one_emitted
link_fields-IsBalanced_example =
    link_fields-IsBalanced basis_points ascii ctx fields ("fire_rating" ∷ []) no_counts
      (rating_field ∷ []) one_emitted linked_run

abbrev text_field : String → Text → LinkedField ℕ
text_field name text = record rating_field { name = name; value = some text }

abbrev pub linked_door : List (LinkedField ℕ)
linked_door =
    rating_field
    ∷ text_field "size" (codes "3070")
    ∷ text_field "handing" (codes "LH")
    ∷ text_field "door_number" (codes "101")
    ∷ []

abbrev pub door_record : ModelRecord ℕ
door_record = record { fields = []; opening_id = none; needs_review = false }

abbrev pub settled_door : Opening ℕ
settled_door = opening_of basis_points door_record linked_door (codes "101")

pub settled_run :
    ((persist_opening basis_points door_record linked_door no_counts).0 ≡ some settled_door)
    × (settled_door.review_state ≡ auto)
unfolding opening_runs
settled_run = (refl, refl)

persist_opening-IsSettled_example :
    IsSettled settled_door
    × (door_record.needs_review ≡ false)
    × All (λ (l : LinkedField ℕ). is_rejected l.review_state ≡ false) linked_door
    × All (λ (l : LinkedField ℕ). is_flagged l.review_state ≡ false) linked_door
persist_opening-IsSettled_example =
    persist_opening-IsSettled basis_points door_record linked_door no_counts settled_door
      (settled_run.0) (settled_run.1)

hardware_runs : Unit {0}
unfolding opening_runs description_of parse_quantity digits_of fraction_of component_row
    component_rows persist_hardware_set described
hardware_runs = tt

abbrev hinge : List (LinkedField ℕ)
hinge =
    record rating_field { name = "description"; value = some (codes "Hinge") }
    ∷ record rating_field { name = "quantity"; value = some (codes " 1.50 EA") }
    ∷ []

abbrev no_sets : HardwareStats
no_sets = record {
  hardware_callouts = 0;
  hardware_sets_resolved = 0;
  hardware_sets_unresolved = 0;
  hardware_components_written = 0;
}

quantity_of_hinge :
    map {B = ℕ × Option Decimal}
      (λ row. (row.component_index, row.quantity))
      ((persist_hardware_set {F = ℕ} (codes "HW-7") true false ([] ∷ hinge ∷ []) no_sets).0)
    ≡ (0, some (record { coefficient = pos 150; places = 2 })) ∷ []
unfolding hardware_runs
quantity_of_hinge = refl

abbrev names_of : Option (List (LinkedField ℕ) × LinkStats) → List String
names_of none = []
names_of (some (linked, stats)) = map (λ (l : LinkedField ℕ). l.name) linked

component_names :
    names_of (link_component basis_points ascii ctx fields no_counts) ≡ component_fields
unfolding hardware_runs link_component link_each link_field link_fields lookup
component_names = refl

-- A set whose components have no description writes no row and counts as resolved.
nothing_written :
    persist_hardware_set {F = ℕ} (codes "HW-7") true false ([] ∷ []) no_sets
    ≡ ([], record no_sets { hardware_callouts = 1; hardware_sets_resolved = 1 })
unfolding hardware_runs
nothing_written = refl

persist_hardware_set-IsWritten_example :
    let out = persist_hardware_set (codes "HW-7") true false ([] ∷ hinge ∷ []) no_sets in
    IsWritten 0 ([] ∷ hinge ∷ []) out.0
    × (out.1.hardware_components_written ≡ 0 + length out.0)
    × (out.1.hardware_sets_resolved ≡ 1)
    × (out.1.hardware_sets_unresolved ≡ 0)
persist_hardware_set-IsWritten_example =
    persist_hardware_set-IsWritten (codes "HW-7") false [] (hinge ∷ []) no_sets
