-- ===== src/Parsers/Finish.antt =====
-- backend/pipeline/parsers/finish.py: the lookup in the table of finish codes. A
-- dictionary with text keys is a list in the order of its insertion. The raw text of a result is
-- that of the argument, and left out.
use mathlib.Core.List.{Memᴰ}
use mathlib.Core.Path.{subst}
use cbc_new.Prelude.{
  ◌≡◌, ◌≢◌, ◌⊎◌, refl, sym, ◌∙◌, ap, String, Bool, true, false, not, ◌&&◌, ◌||◌, Option, none, some,
  List, [], ◌∷◌, is_empty, keep, if◌then◌else◌, Bool-cases, Option-cases, inl, inr,
}
use cbc_new.Prelude.Text.{Text, is_digit, is_upper, is_blank, to_upper, text_eq, text_eq_iff}
pub mod Exact
mod Tests

pub data Reason : Type 0 where
  no_reason nothing_found not_in_table : Reason

pub record FinishCode : Type 0 where
  pub id : String
  pub us_code : Text
  pub bhma_code : Text

pub record ParsedFinish : Type 0 where
  pub code : Option FinishCode
  pub needs_review : Bool
  pub reason : Reason

-- `_STRIP.sub("", str(raw).upper())`
unfoldable pub normalise_token : Text → Text
normalise_token raw = keep (λ c. is_upper c || is_digit c) (to_upper raw)

module _ {V : Type 0} where
  -- `table.get(key)`
  unfoldable pub get : Text → List (Text × V) → Option V
  get key [] = none
  get key ((name, value) ∷ entries) = if text_eq name key then some value else get key entries

  -- `table[key] = value`
  unfoldable pub put : Text → V → List (Text × V) → List (Text × V)
  put key new [] = (key, new) ∷ []
  put key new ((name, value) ∷ entries) =
      if text_eq name key then (name, new) ∷ entries else (name, value) ∷ put key new entries

-- The loop of `load_lookup`, from a table that is filled so far.
unfoldable pub load_from : List (Text × FinishCode) → List FinishCode → List (Text × FinishCode)
load_from table [] = table
load_from table (row ∷ rows) =
    load_from
      (put (normalise_token row.bhma_code) row (put (normalise_token row.us_code) row table)) rows

unfoldable pub load_lookup : List FinishCode → List (Text × FinishCode)
unfolding load_from
load_lookup rows = load_from [] rows

abbrev pub finish_of : Option FinishCode → ParsedFinish
finish_of none = record { code = none; needs_review = true; reason = not_in_table }
finish_of (some row) = record { code = some row; needs_review = false; reason = no_reason }

unfoldable pub parse_finish : Option Text → List (Text × FinishCode) → ParsedFinish
parse_finish none table = record { code = none; needs_review = true; reason = nothing_found }
parse_finish (some raw) table =
    if is_blank raw
    then record { code = none; needs_review = true; reason = nothing_found }
    else finish_of (get (normalise_token raw) table)
