-- ===== src/Match/Score.antt =====
-- The soft scores, and the evaluation of one catalogue item (score_finish to score_candidate of
-- backend/pipeline/stages/match.py). The texts that a candidate copies from its item are left out.
use cbc_new.Prelude.{
  ℕ, ◌-◌, String, Bool, true, false, not, ◌&&◌, ◌||◌, Option, none, some, List, [], ◌∷◌, ◌++◌,
  if◌then◌else◌, ◌==◌, ltb, leb, is_empty,
}
use cbc_new.Prelude.Text.{Text, text_eq}
use cbc_new.Prelude.Float.{Float}
use cbc_new.Prelude.Fuzz.{Fuzz}
use text.Mathlib.Text.{◌==◌ as str_eq}
use cbc_new.Match.{
  FinishCode, CatalogItem, MatchCriteria, Reason, Check, check_rating, check_handing,
  check_division,
}

pub data Note : Type 0 where
  hand_not_stated over_rated no_division exact_part_number : Note

pub record Candidate (F : Type 0) : Type 0 where
  pub catalog_item_id : String
  pub rating_ok : Bool
  pub handing_ok : Bool
  pub division_ok : Bool
  pub finish_ok : Bool
  pub finish_score : F
  pub size_score : F
  pub vendor_score : F
  pub stock_score : F
  pub text_score : F
  pub match_confidence : F
  pub is_direct_equal : Bool
  pub over_specified : Bool
  pub rejection_reason : List Reason
  pub notes : List Note

unfoldable pub is_eligible : {F : Type 0} → Candidate F → Bool
is_eligible c = c.rating_ok && c.handing_ok && c.division_ok

-- `abs(a - b)`
unfoldable pub distance : ℕ → ℕ → ℕ
distance a b = if ltb a b then b - a else a - b

abbrev pub reasons_of : Check → List Reason
reasons_of k = elim (k.reason) [ none ↦ [] | some r ↦ r ∷ [] ]

abbrev pub note_if : Bool → Note → List Note
note_if b n = if b then n ∷ [] else []

-- Four known dimensions, or none.
unfoldable pub dimensions : Option ℕ → Option ℕ → Option (ℕ × ℕ)
dimensions (some w) (some h) = some (w, h)
dimensions _ _ = none

module _ (fl : Float) (fz : Fuzz (fl.F)) where
  open fl use {F, decimal, add, mul, div, round4}

  unfoldable pub compare_finish : MatchCriteria → String → FinishCode → F × Bool
  compare_finish c wanted offered =
      if str_eq offered.id wanted
      then (decimal 10_000, true)
      else if not (is_empty c.finish_base_metal) && text_eq offered.base_metal c.finish_base_metal
      then (decimal 4000, false)
      else (decimal 500, false)

  unfoldable pub score_finish : MatchCriteria → CatalogItem → F × Bool
  unfolding compare_finish
  score_finish c item = elim (c.finish_code_id) [
    | none ↦ (decimal 5000, false)
    | some wanted ↦ elim (item.finish_code) [
      | none ↦ (decimal 3000, false)
      | some offered ↦ compare_finish c wanted offered
    ]
  ]

  unfoldable pub compare_size : ℕ → Option (ℕ × ℕ) → Option (ℕ × ℕ) → F
  unfolding distance
  compare_size tolerance (some (width, height)) (some (item_width, item_height)) =
      if item_width == width && item_height == height
      then decimal 10_000
      else if leb (distance item_width width) tolerance
          && leb (distance item_height height) tolerance
      then decimal 6000
      else decimal 1000
  compare_size tolerance _ _ = decimal 5000

  unfoldable pub score_size : MatchCriteria → CatalogItem → ℕ → F
  unfolding compare_size dimensions
  score_size c item tolerance =
      compare_size tolerance (dimensions c.width_inches c.height_inches)
        (dimensions item.width_inches item.height_inches)

  -- `a.casefold() == b.casefold()`
  unfoldable pub same_folded : Text → Text → Bool
  same_folded a b = text_eq (fz.casefold a) (fz.casefold b)

  unfoldable pub score_vendor : MatchCriteria → CatalogItem → F × Bool
  unfolding same_folded
  score_vendor c item =
      if is_empty c.vendor
      then (decimal 5000, false)
      else if not (same_folded item.vendor c.vendor)
      then (decimal 3000, true)
      else if not (is_empty c.series) && not (is_empty item.series)
      then (if same_folded item.series c.series
          then (decimal 10_000, false)
          else (decimal 6000, false))
      else (decimal 9000, false)

  unfoldable pub score_stock : CatalogItem → F
  score_stock item = if item.is_stock then decimal 10_000 else decimal 4000

  unfoldable pub score_text : MatchCriteria → CatalogItem → F
  score_text c item =
      if is_empty c.description || is_empty item.description
      then decimal 0
      else div (fz.token_set_ratio c.description item.description) (decimal 1_000_000)

  -- Weights 0.30, 0.25, 0.20, 0.15 and 0.10.
  unfoldable pub weigh : (finish vendor size text stock : F) → F
  weigh finish vendor size text stock = round4 (
      add
        (add
          (add (add (mul finish (decimal 3000)) (mul vendor (decimal 2500)))
            (mul size (decimal 2000)))
          (mul text (decimal 1500)))
        (mul stock (decimal 1000)))

  unfoldable pub names_part : MatchCriteria → CatalogItem → Bool
  unfolding same_folded
  names_part c item =
      not (is_empty c.part_number)
      && not (is_empty item.part_number)
      && same_folded c.part_number item.part_number

  unfoldable pub score_candidate : MatchCriteria → CatalogItem → ℕ → Candidate F
  unfolding check_rating check_handing check_division score_finish score_size score_vendor
      score_stock score_text weigh names_part
  score_candidate c item tolerance =
      let rating = check_rating c item in
      let hand = check_handing c item in
      let division = check_division c item in
      let (finish_score, finish_ok) = score_finish c item in
      let size_score = score_size c item tolerance in
      let (vendor_score, is_direct_equal) = score_vendor c item in
      let stock_score = score_stock item in
      let text_score = score_text c item in
      let is_part = names_part c item in
      let qualified = rating.ok && hand.ok && division.ok in
      record {
        catalog_item_id = item.id;
        rating_ok = rating.ok;
        handing_ok = hand.ok;
        division_ok = division.ok;
        finish_ok = finish_ok;
        finish_score = finish_score;
        size_score = size_score;
        vendor_score = vendor_score;
        stock_score = stock_score;
        text_score = text_score;
        match_confidence =
            if not qualified
            then decimal 0
            else if is_part
            then decimal 9800
            else weigh finish_score vendor_score size_score text_score stock_score;
        is_direct_equal = is_direct_equal;
        over_specified = rating.is_flagged;
        rejection_reason = reasons_of rating ++ (reasons_of hand ++ reasons_of division);
        notes =
            note_if hand.is_flagged hand_not_stated
            ++ (note_if rating.is_flagged over_rated
                ++ (elim (item.csi_division) [ none ↦ no_division ∷ [] | some d ↦ [] ]
                    ++ note_if (qualified && is_part) exact_part_number));
      }
