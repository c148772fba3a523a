-- ===== src/Link/Opening.antt =====
-- The row of an opening that is written from its linked fields (link_opening, persist_opening of
-- backend/pipeline/stages/link.py). The rows of `field_provenance` are the linked fields. The
-- constant location of the rating and the sentences of the review notes are left out.
pub mod Review
use cbc_new.Prelude.{
  ℕ, suc, ◌+◌, ◌≡◌, String, Bool, true, false, not, ◌||◌, Option, none, some, List, [], ◌∷◌,
  if◌then◌else◌, any, is_empty,
}
use cbc_new.Prelude.Text.{Text, codes}
use cbc_new.Prelude.Dict.{Dict}
use cbc_new.Prelude.Float.{Float}
use cbc_new.Prelude.Fuzz.{Fuzz}
use text.Mathlib.Text.{◌==◌ as str_eq}
use cbc_new.Parsers.Size
use cbc_new.Parsers.Handing
use cbc_new.Parsers.Handing.{Handing}
use cbc_new.Parsers.FireRating
use cbc_new.Link.{
  ReviewState, auto, flagged, confirmed, corrected, rejected, LinkStats, Emitted, LinkedField,
  Context, opening_fields, link_fields,
}

-- One opening of the model's output.
pub record ModelRecord (F : Type 0) : Type 0 where
  pub fields : Dict (Emitted F)
  pub opening_id : Option Text
  pub needs_review : Bool

pub record Opening (F : Type 0) : Type 0 where
  pub door_number : Text
  pub size_raw : Option Text
  pub width_inches : Option ℕ
  pub height_inches : Option ℕ
  pub handing : Option Handing
  pub handing_absent : Bool
  pub finish_raw : Option Text
  pub fire_rating_raw : Option Text
  pub fire_rating_minutes : Option ℕ
  pub fire_rating_absent : Bool
  pub hardware_group : Option Text
  pub alternate_designation : Option Text
  pub review_state : ReviewState
  pub provenance : List (LinkedField F)

unfoldable pub is_rejected : ReviewState → Bool
is_rejected rejected = true
is_rejected _ = false

unfoldable pub is_flagged : ReviewState → Bool
is_flagged flagged = true
is_flagged _ = false

-- `text or None`
unfoldable pub or_none : Text → Option Text
or_none [] = none
or_none (c ∷ s) = some (c ∷ s)

module _ {F : Type 0} where
  -- `{item.name: item for item in linked}.get(name)`: the last entry of a name counts.
  unfoldable pub by_name : String → List (LinkedField F) → Option (LinkedField F)
  by_name name [] = none
  by_name name (l ∷ ls) = elim (by_name name ls) [
    | some later ↦ some later
    | none ↦ if str_eq l.name name then some l else none
  ]

  -- The value of an accepted field.
  unfoldable pub raw : String → List (LinkedField F) → Option Text
  raw name linked = elim (by_name name linked) [
    | none ↦ none
    | some l ↦ if is_rejected l.review_state then none else l.value
  ]

  -- `raw("door_number") or record.get("opening_id") or ""`
  unfoldable pub door_number_of : ModelRecord F → List (LinkedField F) → Text
  door_number_of record_in linked = elim (raw "door_number" linked) [
    | some (c ∷ s) ↦ c ∷ s
    | _ ↦ elim (record_in.opening_id) [ some t ↦ t | none ↦ [] ]
  ]

  unfoldable pub opening_needs_review :
      ModelRecord F
      → List (LinkedField F)
      → Size.ParsedSize
      → FireRating.ParsedFireRating
      → Handing.ParsedHanding
      → Bool
  opening_needs_review record_in linked size rating handing =
      record_in.needs_review
      || any (λ l. is_rejected l.review_state) linked
      || any (λ l. is_flagged l.review_state) linked
      || size.needs_review
      || rating.needs_review
      || handing.needs_review

unfoldable pub count_opening : LinkStats → LinkStats
count_opening s = record s { openings_written = s.openings_written + 1 }

module _ (fl : Float) where
  open fl use {F}

  unfoldable pub opening_of : ModelRecord F → List (LinkedField F) → Text → Opening F
  opening_of record_in linked door_number =
      let size = Size.parse_size (raw "size" linked) in
      let rating = FireRating.parse_fire_rating fl (raw "fire_rating" linked) in
      let handing = Handing.parse_handing (raw "handing" linked) in
      record {
        door_number = door_number;
        size_raw = or_none size.raw;
        width_inches = size.width_inches;
        height_inches = size.height_inches;
        handing = handing.handing;
        handing_absent = handing.absent;
        finish_raw = raw "finish" linked;
        fire_rating_raw = or_none rating.raw;
        fire_rating_minutes = rating.minutes;
        fire_rating_absent = rating.absent;
        hardware_group = raw "hardware_group" linked;
        alternate_designation = raw "alternate_designation" linked;
        review_state =
            if opening_needs_review record_in linked size rating handing then flagged else auto;
        provenance = linked;
      }

  -- `none` is the record that is skipped for want of a door number.
  unfoldable pub persist_opening :
      ModelRecord F → List (LinkedField F) → LinkStats → Option (Opening F) × LinkStats
  persist_opening record_in linked stats =
      let door_number = door_number_of record_in linked in
      if is_empty door_number
      then (none, stats)
      else (some (opening_of record_in linked door_number), count_opening stats)

  unfoldable pub link_opening :
      Fuzz F → Context F → ModelRecord F → LinkStats → Option (List (LinkedField F) × LinkStats)
  link_opening fz ctx record_in stats = link_fields fl fz ctx record_in.fields opening_fields stats
