-- ===== src/Match.antt =====
-- backend/pipeline/stages/match.py: the matching engine. This file has the criteria, the catalogue
-- items and the hard constraints; `Criteria` makes the criteria, `Score` the soft scores, `Rank` the ranking and the disposition,
-- `Snapshot` the catalogue. Reasons and notes are codes here instead of sentences.
pub mod Score
pub mod Snapshot
pub mod Rank
pub mod Safety
pub mod Order
pub mod Disposition
pub mod Criteria
mod Tests
use cbc_new.Prelude.{
  ℕ, String, Bool, true, false, not, ◌&&◌, Option, none, some, if◌then◌else◌, ltb, is_some,
}
use cbc_new.Prelude.Text.{Text, text_eq, join}
use text.Mathlib.Text.{◌==◌ as str_eq}
use cbc_new.Parsers.Handing.{Handing, lh, rh, lhr, rhr}

pub record FinishCode : Type 0 where
  pub id : String
  pub base_metal : Text

-- A row of the catalogue. Empty texts are falsy.
pub record CatalogItem : Type 0 where
  pub id : String
  pub vendor : Text
  pub sku : Text
  pub series : Text
  pub part_number : Text
  pub description : Text
  pub csi_division : Option String
  pub fire_rating_minutes : Option ℕ
  pub handing : Option Handing
  pub finish_code : Option FinishCode
  pub width_inches : Option ℕ
  pub height_inches : Option ℕ
  pub is_stock : Bool

pub record MatchCriteria : Type 0 where
  pub description : Text
  pub csi_division : Option String
  pub fire_rating_minutes : Option ℕ
  pub fire_rating_absent : Bool
  pub handing : Option Handing
  pub handing_absent : Bool
  pub finish_code_id : Option String
  pub finish_base_metal : Text
  pub width_inches : Option ℕ
  pub height_inches : Option ℕ
  pub vendor : Text
  pub series : Text
  pub part_number : Text

unfoldable pub rating_is_unresolved : MatchCriteria → Bool
rating_is_unresolved c = not (is_some c.fire_rating_minutes) && not c.fire_rating_absent

unfoldable pub handing_is_unresolved : MatchCriteria → Bool
handing_is_unresolved c = not (is_some c.handing) && not c.handing_absent

-- Why a hard constraint fails.
pub data Reason : Type 0 where
  unrated under_rated wrong_hand wrong_division : Reason

-- The result of a check: whether it holds, the reason if not, and a flag.
pub record Check : Type 0 where
  pub ok : Bool
  pub reason : Option Reason
  pub is_flagged : Bool

abbrev pub holds : Check
holds = record { ok = true; reason = none; is_flagged = false }

abbrev pub holds_flagged : Bool → Check
holds_flagged b = record { ok = true; reason = none; is_flagged = b }

abbrev pub fails : Reason → Check
fails r = record { ok = false; reason = some r; is_flagged = false }

-- The flag says that the item is over-specified.
unfoldable pub compare_rating : Option ℕ → Option ℕ → Check
compare_rating none none = holds
compare_rating none (some offered) = holds_flagged true
compare_rating (some required) none = fails unrated
compare_rating (some required) (some offered) =
    if ltb offered required then fails under_rated else holds_flagged (ltb required offered)

unfoldable pub check_rating : MatchCriteria → CatalogItem → Check
unfolding compare_rating
check_rating c item = compare_rating c.fire_rating_minutes item.fire_rating_minutes

unfoldable pub handing_eq : Handing → Handing → Bool
handing_eq lh lh = true
handing_eq rh rh = true
handing_eq lhr lhr = true
handing_eq rhr rhr = true
handing_eq _ _ = false

-- The flag says that a handed item is proposed where no hand is required.
unfoldable pub compare_handing : Option Handing → Option Handing → Check
unfolding handing_eq
compare_handing required none = holds
compare_handing none (some offered) = holds_flagged true
compare_handing (some required) (some offered) =
    if not (handing_eq required offered) then fails wrong_hand else holds

unfoldable pub check_handing : MatchCriteria → CatalogItem → Check
unfolding compare_handing
check_handing c item = compare_handing c.handing item.handing

unfoldable pub compare_division : Option String → Option String → Check
compare_division required none = holds
compare_division none (some offered) = holds
compare_division (some required) (some offered) =
    if not (str_eq offered required) then fails wrong_division else holds

unfoldable pub check_division : MatchCriteria → CatalogItem → Check
unfolding compare_division
check_division c item = compare_division c.csi_division item.csi_division
