-- ===== src/Parsers/Handing.antt =====
-- backend/pipeline/parsers/handing.py, and `Handing` of backend/shared/enums.py
pub mod Laws
mod Tests
use cbc_new.Prelude.{
  String, Bool, true, false, ◌||◌, Option, none, some, List, [], ◌∷◌, if◌then◌else◌, ◌==◌, keep,
  is_some, not,
}
use cbc_new.Prelude.Text.{Text, codes, is_upper, is_blank, strip, to_upper, text_eq, is_listed}

pub data Handing : Type 0 where
  lh rh lhr rhr : Handing

pub data Reason : Type 0 where
  no_reason no_handing unrecognised : Reason

pub record ParsedHanding : Type 0 where
  pub raw : Text
  pub handing : Option Handing
  pub absent : Bool
  pub needs_review : Bool
  pub reason : Reason

unfoldable pub ok : ParsedHanding → Bool
ok p = is_some p.handing || p.absent

-- The keys are stripped of all that is no letter.
abbrev pub canonical : List (String × Handing)
canonical =
    ("LH", lh)
    ∷ ("LEFTHAND", lh)
    ∷ ("LEFT", lh)
    ∷ ("L", lh)
    ∷ ("RH", rh)
    ∷ ("RIGHTHAND", rh)
    ∷ ("RIGHT", rh)
    ∷ ("R", rh)
    ∷ ("LHR", lhr)
    ∷ ("LHRB", lhr)
    ∷ ("LEFTHANDREVERSE", lhr)
    ∷ ("LEFTHANDREVERSEBEVEL", lhr)
    ∷ ("RHR", rhr)
    ∷ ("RHRB", rhr)
    ∷ ("RIGHTHANDREVERSE", rhr)
    ∷ ("RIGHTHANDREVERSEBEVEL", rhr)
    ∷ []

abbrev pub not_handed : List String
not_handed = "NA" ∷ "NONE" ∷ "-" ∷ "--" ∷ "PAIR" ∷ "DBL" ∷ "DOUBLE" ∷ []

unfoldable pub find_canonical : Text → List (String × Handing) → Option Handing
find_canonical text [] = none
find_canonical text ((w, h) ∷ ws) =
    if text_eq text (codes w) then some h else find_canonical text ws

-- `_STRIP.sub("", text)`
unfoldable pub letters : Text → Text
letters = keep is_upper

unfoldable pub states_absence : Text → Bool
states_absence text =
    is_listed (letters (keep (λ c. not (c == b'/')) text)) not_handed || is_listed text not_handed

unfoldable pub parse_handing : Option Text → ParsedHanding
parse_handing none = record {
  raw = [];
  handing = none;
  absent = false;
  needs_review = true;
  reason = no_handing;
}
parse_handing (some raw) =
    let text = to_upper (strip raw) in
    if is_blank raw
    then record {
      raw = raw;
      handing = none;
      absent = false;
      needs_review = true;
      reason = no_handing;
    }
    else if states_absence text
    then record {
      raw = raw;
      handing = none;
      absent = true;
      needs_review = false;
      reason = no_reason;
    }
    else elim (find_canonical (letters text) canonical) [
      | some hit ↦ record {
        raw = raw;
        handing = some hit;
        absent = false;
        needs_review = false;
        reason = no_reason;
      }
      | none ↦ record {
        raw = raw;
        handing = none;
        absent = false;
        needs_review = true;
        reason = unrecognised;
      }
    ]
