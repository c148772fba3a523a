-- ===== src/Match/Criteria.antt =====
-- The criteria of an opening and of a hardware component (MatchCriteria.from_opening and
-- from_component of backend/pipeline/stages/match.py). The finish code of the opening is an
-- argument, as linking does not set it.
use cbc_new.Prelude.{
  String, ◌≡◌, refl, ◌≢◌, ◌⊎◌, inl, inr, Bool, true, false, not, ◌&&◌, Option, none, some, List, [],
  ◌∷◌, arith, is_empty, keep, map, or_else, is_some,
}
use cbc_new.Prelude.Text.{Text, join}
use cbc_new.Prelude.Float.{Float}
use cbc_new.Link.{auto, LinkStats, LinkedField}
use cbc_new.Link.Opening.{ModelRecord, Opening, persist_opening}
use cbc_new.Link.Opening.Review.{IsSettled, persist_opening-IsSettled}
use cbc_new.Match.{FinishCode, MatchCriteria, rating_is_unresolved, handing_is_unresolved}

-- A resolved line of a hardware set.
pub record Component : Type 0 where
  pub description : Option Text
  pub manufacturer : Option Text
  pub part_number : Option Text
  pub finish_raw : Option Text

-- `" ".join(part for part in parts if part)`
unfoldable pub join_present : List (Option Text) → Text
join_present parts = join (keep (λ t. not (is_empty t)) (map (λ o. or_else o []) parts))

abbrev finish_id : Option FinishCode → Option String
finish_id none = none
finish_id (some f) = some f.id

abbrev finish_metal : Option FinishCode → Text
finish_metal none = []
finish_metal (some f) = f.base_metal

settled_value {ℓ} :
    {A : Type ℓ} (o : Option A) (absent : Bool)
    → (o ≢ none) ⊎ (absent ≡ true)
    → (not (is_some o) && not absent) ≡ false
settled_value none absent (inl h) = absurd (h refl)
settled_value none absent (inr h) = ground arith
settled_value (some a) absent h = refl

module _ {F : Type 0} where
  unfoldable pub from_opening : Opening F → Option FinishCode → MatchCriteria
  from_opening o finish = record {
    description = join_present (o.hardware_group ∷ o.size_raw ∷ o.finish_raw ∷ []);
    csi_division = some "08";
    fire_rating_minutes = o.fire_rating_minutes;
    fire_rating_absent = o.fire_rating_absent;
    handing = o.handing;
    handing_absent = o.handing_absent;
    finish_code_id = finish_id finish;
    finish_base_metal = finish_metal finish;
    width_inches = o.width_inches;
    height_inches = o.height_inches;
    vendor = [];
    series = [];
    part_number = [];
  }

  unfoldable pub from_component : Component → Opening F → Option FinishCode → MatchCriteria
  from_component k o finish = record {
    description = join_present (k.description ∷ k.manufacturer ∷ k.part_number ∷ k.finish_raw ∷ []);
    csi_division = some "08";
    fire_rating_minutes = o.fire_rating_minutes;
    fire_rating_absent = o.fire_rating_absent;
    handing = o.handing;
    handing_absent = o.handing_absent;
    finish_code_id = finish_id finish;
    finish_base_metal = finish_metal finish;
    width_inches = none;
    height_inches = none;
    vendor = or_else k.manufacturer [];
    series = [];
    part_number = or_else k.part_number [];
  }

  IsSettled-resolved :
      (o : Opening F) (finish : Option FinishCode)
      → IsSettled o
      → (rating_is_unresolved (from_opening o finish) ≡ false)
        × (handing_is_unresolved (from_opening o finish) ≡ false)
  unfolding from_opening rating_is_unresolved handing_is_unresolved
  IsSettled-resolved o finish s = (
    settled_value o.fire_rating_minutes o.fire_rating_absent s.rated,
    settled_value o.handing o.handing_absent s.handed,
  )

  IsSettled-resolved_component :
      (k : Component) (o : Opening F) (finish : Option FinishCode)
      → IsSettled o
      → (rating_is_unresolved (from_component k o finish) ≡ false)
        × (handing_is_unresolved (from_component k o finish) ≡ false)
  unfolding from_component rating_is_unresolved handing_is_unresolved
  IsSettled-resolved_component k o finish s = (
    settled_value o.fire_rating_minutes o.fire_rating_absent s.rated,
    settled_value o.handing o.handing_absent s.handed,
  )

-- An opening that linking writes without a review is never held back in matching for an unresolved
-- rating or hand, neither for the door itself nor for a component of its hardware set.
pub persisted_is_resolved :
    (fl : Float) (record_in : ModelRecord (fl.F)) (linked : List (LinkedField (fl.F)))
    (stats : LinkStats) (o : Opening (fl.F)) (finish : Option FinishCode) (k : Component)
    → (persist_opening fl record_in linked stats).0 ≡ some o
    → o.review_state ≡ auto
    → (rating_is_unresolved (from_opening o finish) ≡ false)
      × (handing_is_unresolved (from_opening o finish) ≡ false)
      × (rating_is_unresolved (from_component k o finish) ≡ false)
      × (handing_is_unresolved (from_component k o finish) ≡ false)
persisted_is_resolved fl record_in linked stats o finish k e a =
    let (settled, _, _, _) = persist_opening-IsSettled fl record_in linked stats o e a in
    let (rated, handed) = IsSettled-resolved o finish settled in
    let (rated_too, handed_too) = IsSettled-resolved_component k o finish settled in
    (rated, handed, rated_too, handed_too)
