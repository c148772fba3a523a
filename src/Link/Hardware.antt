-- ===== src/Link/Hardware.antt =====
-- The rows of a hardware set (link_component, parse_quantity and persist_hardware_set of
-- backend/pipeline/stages/link.py). The rows of `field_provenance` are the linked fields. The counters
-- are those of LinkStats for hardware sets; the sentence of the review note is left out.
use cbc_new.Prelude.{
  String, ℕ, suc, ◌+◌, ◌≡◌, refl, ◌∙◌, ap, Bool, true, false, not, ◌||◌, Option, none, some, List,
  [], ◌∷◌, ◌++◌, map, length, if◌then◌else◌, any, is_empty, ◌==◌,
}
use cbc_new.Prelude.Text.{Text, is_digit, drop_space, number}
use cbc_new.Prelude.Int.{pos}
use cbc_new.Pricing.Rounding.{Decimal}
use cbc_new.Prelude.Dict.{Dict}
use cbc_new.Prelude.Float.{Float}
use cbc_new.Prelude.Fuzz.{Fuzz}
use cbc_new.Link.{ReviewState, auto, flagged, LinkedField, LinkStats, Context, Emitted, link_fields}
use cbc_new.Link.Opening.{raw}

pub record HardwareStats : Type 0 where
  pub hardware_callouts : ℕ
  pub hardware_sets_resolved : ℕ
  pub hardware_sets_unresolved : ℕ
  pub hardware_components_written : ℕ

pub record HardwareRow (F : Type 0) : Type 0 where
  pub hardware_group : Text
  pub component_index : ℕ
  pub resolved : Bool
  pub explicit_part : Bool
  pub description : Option Text
  pub manufacturer : Option Text
  pub part_number : Option Text
  pub finish_raw : Option Text
  pub quantity_raw : Option Text
  pub quantity : Option Decimal
  pub review_state : ReviewState
  pub provenance : List (LinkedField F)

-- `\d*` at the front of a text, and the rest.
unfoldable pub digits_of : Text → Text × Text
digits_of [] = ([], [])
digits_of (c ∷ s) =
    let (taken, rest) = digits_of s in if is_digit c then (c ∷ taken, rest) else ([], c ∷ s)

-- `(?:\.\d+)?` after the digits.
unfoldable pub fraction_of : Text → Text
unfolding digits_of
fraction_of [] = []
fraction_of (c ∷ s) = if c == b'.' then (digits_of s).0 else []

unfoldable pub parse_quantity : Option Text → Option Decimal
unfolding fraction_of digits_of
parse_quantity none = none
parse_quantity (some raw) =
    let (whole, rest) = digits_of (drop_space raw) in
    let fraction = fraction_of rest in
    if is_empty whole
    then none
    else some (record { coefficient = pos (number (whole ++ fraction)); places = length fraction })

abbrev pub component_fields : List String
component_fields = "quantity" ∷ "description" ∷ "manufacturer" ∷ "part_number" ∷ "finish" ∷ []

-- A component goes through the gate without zero-tolerance fields.
unfoldable pub link_component :
    (fl : Float) (fz : Fuzz fl.F)
    → Context fl.F
    → Dict (Emitted fl.F)
    → LinkStats
    → Option (List (LinkedField fl.F) × LinkStats)
unfolding link_fields
link_component fl fz ctx component stats =
    link_fields fl fz (record ctx { zero_tolerance = [] }) component component_fields stats

abbrev pub is_auto : ReviewState → Bool
is_auto auto = true
is_auto _ = false

abbrev pub text_or_none : Option Text → Option Text
text_or_none none = none
text_or_none (some t) = if is_empty t then none else some t

module _ {F : Type 0} where
  -- The description that a component goes by, if it has one.
  unfoldable pub description_of : List (LinkedField F) → Option Text
  unfolding raw
  description_of linked = text_or_none (raw "description" linked)

  unfoldable pub component_row : Text → Bool → ℕ → List (LinkedField F) → Text → HardwareRow F
  unfolding raw
  component_row group explicit_part index linked description = record {
    hardware_group = group;
    component_index = index;
    resolved = true;
    explicit_part = explicit_part;
    description = some description;
    manufacturer = raw "manufacturer" linked;
    part_number = raw "part_number" linked;
    finish_raw = raw "finish" linked;
    quantity_raw = raw "quantity" linked;
    quantity = parse_quantity (raw "quantity" linked);
    review_state = if any (λ l. not (is_auto l.review_state)) linked then flagged else auto;
    provenance = linked;
  }

  unfoldable pub unresolved_row : Text → Bool → HardwareRow F
  unresolved_row group explicit_part = record {
    hardware_group = group;
    component_index = 0;
    resolved = false;
    explicit_part = explicit_part;
    description = none;
    manufacturer = none;
    part_number = none;
    finish_raw = none;
    quantity_raw = none;
    quantity = none;
    review_state = flagged;
    provenance = [];
  }

  -- The rows with that of a component in front, if it has a description.
  abbrev with_row :
      Text
      → Bool
      → ℕ
      → List (LinkedField F)
      → Option Text
      → List (HardwareRow F)
      → List (HardwareRow F)
      → List (HardwareRow F)
  with_row group explicit_part index c none same next = same
  with_row group explicit_part index c (some d) same next =
      component_row group explicit_part index c d ∷ next

  -- The loop over the components; one without a description is dropped.
  unfoldable pub component_rows :
      Text → Bool → ℕ → List (List (LinkedField F)) → List (HardwareRow F)
  component_rows group explicit_part index [] = []
  component_rows group explicit_part index (c ∷ cs) =
      with_row group explicit_part index c (description_of c)
        (component_rows group explicit_part index cs)
        (component_rows group explicit_part (suc index) cs)

  unfoldable pub persist_hardware_set :
      Text
      → Bool
      → Bool
      → List (List (LinkedField F))
      → HardwareStats
      → List (HardwareRow F) × HardwareStats
  persist_hardware_set group resolved explicit_part components stats =
      if not resolved || is_empty components
      then (
        unresolved_row group explicit_part ∷ [],
        record stats {
          hardware_callouts = suc stats.hardware_callouts;
          hardware_sets_unresolved = suc stats.hardware_sets_unresolved;
        },
      )
      else let rows = component_rows group explicit_part 0 components in
        (
          rows,
          record stats {
            hardware_callouts = suc stats.hardware_callouts;
            hardware_sets_resolved = suc stats.hardware_sets_resolved;
            hardware_components_written = stats.hardware_components_written + length rows;
          },
        )

  abbrev pub with_description :
      List (LinkedField F)
      → Option Text
      → List (Option Text × List (LinkedField F))
      → List (Option Text × List (LinkedField F))
  with_description c none rest = rest
  with_description c (some d) rest = (some d, c) ∷ rest

  -- The components that have a description, with it.
  unfoldable pub described : List (List (LinkedField F)) → List (Option Text × List (LinkedField F))
  described [] = []
  described (c ∷ cs) = with_description c (description_of c) (described cs)

  abbrev pub count_from : ℕ → List (HardwareRow F) → List ℕ
  count_from index [] = []
  count_from index (row ∷ rows) = index ∷ count_from (suc index) rows

  -- The rows are those of the described components, in order, numbered from the index.
  pub record IsWritten (index : ℕ) (components : List (List (LinkedField F)))
      (rows : List (HardwareRow F)) : Type 0 where
    pub of_described : map (λ row. (row.description, row.provenance)) rows ≡ described components
    pub numbered : map (λ row. row.component_index) rows ≡ count_from index rows

  IsWritten-with_row :
      (group : Text) (explicit_part : Bool) (index : ℕ) (c : List (LinkedField F))
      (cs : List (List (LinkedField F))) (description : Option Text)
      → description ≡ description_of c
      → (same next : List (HardwareRow F)) → IsWritten index cs same
      → IsWritten (suc index) cs next
      → IsWritten index (c ∷ cs) (with_row group explicit_part index c description same next)
  unfolding described component_row
  IsWritten-with_row group explicit_part index c cs none e same next h h1 = record {
    of_described = h.of_described ∙ ap (λ o. with_description c o (described cs)) e;
    numbered = h.numbered;
  }
  IsWritten-with_row group explicit_part index c cs (some d) e same next h h1 = record {
    of_described =
        ap (λ l. (some d, c) ∷ l) h1.of_described ∙ ap (λ o. with_description c o (described cs)) e;
    numbered = ap (λ l. index ∷ l) h1.numbered;
  }

  component_rows-IsWritten :
      (group : Text) (explicit_part : Bool) (index : ℕ) (components : List (List (LinkedField F)))
      → IsWritten index components (component_rows group explicit_part index components)
  unfolding component_rows described
  component_rows-IsWritten group explicit_part index [] = record {
    of_described = refl;
    numbered = refl;
  }
  component_rows-IsWritten group explicit_part index (c ∷ cs) =
      IsWritten-with_row group explicit_part index c cs (description_of c) refl
        (component_rows group explicit_part index cs)
        (component_rows group explicit_part (suc index) cs)
        (component_rows-IsWritten group explicit_part index cs)
        (component_rows-IsWritten group explicit_part (suc index) cs)

  -- For a resolved hardware set with components, the rows that are written are those of the components
  -- whose description was accepted and is not empty, in order and numbered from 0, so none if there is
  -- no such component; the set counts as resolved, and the written components are counted.
  pub persist_hardware_set-IsWritten :
      (group : Text) (explicit_part : Bool) (c : List (LinkedField F))
      (cs : List (List (LinkedField F))) (stats : HardwareStats)
      → let out = persist_hardware_set group true explicit_part (c ∷ cs) stats in
        IsWritten 0 (c ∷ cs) out.0
        × (out.1.hardware_components_written ≡ stats.hardware_components_written + length out.0)
        × (out.1.hardware_sets_resolved ≡ suc stats.hardware_sets_resolved)
        × (out.1.hardware_sets_unresolved ≡ stats.hardware_sets_unresolved)
  unfolding persist_hardware_set
  persist_hardware_set-IsWritten group explicit_part c cs stats =
      (component_rows-IsWritten group explicit_part 0 (c ∷ cs), refl, refl, refl)
