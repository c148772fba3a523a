-- ===== src/Parsers/FireRating.antt =====
-- backend/pipeline/parsers/fire_rating.py
pub mod Laws
mod Tests
use cbc_new.Prelude.{
  ℕ, ◌*◌, String, Bool, true, false, ◌||◌, not, Option, none, some, List, [], ◌∷◌, if◌then◌else◌,
  ◌==◌, leb, ◌&&◌, keep, is_some, or_else,
}
use cbc_new.Prelude.Text.{
  Text, codes, is_digit, is_space, is_blank, strip, to_upper, collapse, number, is_listed,
}
use cbc_new.Prelude.Regex.{
  Regex, one, many, text, group, group_many, option, either, ◌then_match◌, Groups, group_text,
  match,
}
use cbc_new.Prelude.Float.{Float}

pub data Reason : Type 0 where
  no_reason no_rating outside_band division_by_zero ambiguous_label unrecognised : Reason

pub record ParsedFireRating : Type 0 where
  pub raw : Text
  pub minutes : Option ℕ
  pub absent : Bool
  pub needs_review : Bool
  pub reason : Reason

unfoldable pub ok : ParsedFireRating → Bool
ok p = is_some p.minutes || p.absent

abbrev pub minutes_unit : Regex
minutes_unit =
    either (text "M")
      (either (text "MIN") (either (text "MINS") (either (text "MINUTE") (text "MINUTES"))))

abbrev pub minutes_pattern : Regex
minutes_pattern = group 1 1 3 is_digit then_match many is_space then_match option minutes_unit

abbrev dash_or_space : ℕ → Bool
dash_or_space c = c == b'-' || is_space c

abbrev pub hours_unit : Regex
hours_unit =
    either (text "H")
      (either (text "HR") (either (text "HRS") (either (text "HOUR") (text "HOURS"))))

abbrev pub hours_pattern : Regex
hours_pattern =
    option (
      group_many 1 is_digit
      then_match many is_space
      then_match one dash_or_space
      then_match many is_space)
    then_match either
        (group_many 2 is_digit
          then_match many is_space
          then_match text "/"
          then_match many is_space
          then_match group_many 3 is_digit)
        (group_many 4 is_digit)
    then_match many is_space
    then_match hours_unit

abbrev pub label_pattern : Regex
label_pattern =
    group 1 1 1 (λ c. leb b'A' c && leb c b'E')
    then_match many is_space
    then_match option (either (text "LABEL") (text "LBL"))

-- The minutes of a letter; two entries where the reference works disagree.
abbrev pub letter_minutes : Text → List ℕ
letter_minutes [] = []
letter_minutes (c ∷ s) =
    if c == b'A'
    then 180 ∷ []
    else if c == b'B'
    then 60 ∷ 90 ∷ []
    else if c == b'C'
    then 45 ∷ []
    else if c == b'D'
    then 90 ∷ []
    else 45 ∷ []

abbrev pub not_rated : List String
not_rated =
    "NR" ∷ "N/R" ∷ "NONE" ∷ "NON-RATED" ∷ "NON RATED" ∷ "NOT RATED" ∷ "N.R." ∷ "-" ∷ "--" ∷ "N/A"
    ∷ []

-- `minutes in FIRE_RATING_MINUTES`
unfoldable pub is_rated : ℕ → Bool
is_rated m = m == 20 || m == 45 || m == 60 || m == 90

unfoldable pub flag : Text → Reason → ParsedFireRating
flag raw reason = record {
  raw = raw;
  minutes = none;
  absent = false;
  needs_review = true;
  reason = reason;
}

unfoldable pub normalise : ℕ → Text → ParsedFireRating
normalise minutes raw =
    if is_rated minutes
    then record {
      raw = raw;
      minutes = some minutes;
      absent = false;
      needs_review = false;
      reason = no_reason;
    }
    else flag raw outside_band

unfoldable pub from_label : Text → List ℕ → ParsedFireRating
from_label raw (m ∷ []) = normalise m raw
from_label raw _ = flag raw ambiguous_label

module _ (fl : Float) where
  open fl use {F, decimal, add, mul, ratio, round_int}

  -- `total` after the whole hours.
  unfoldable pub whole_hours : Option Text → F
  whole_hours none = decimal 0
  whole_hours (some whole) = add (decimal 0) (ratio (number whole) 1)

  unfoldable pub to_minutes : F → ℕ
  to_minutes total = round_int (mul total (ratio 60 1))

  -- The branches on the fraction and on the plain number; a group of digits is never empty.
  unfoldable pub from_hours : Text → Groups → ParsedFireRating
  from_hours raw gs =
      let total = whole_hours (group_text 1 gs) in
      elim (group_text 2 gs) [
        | some num ↦
            let den = number (or_else (group_text 3 gs) []) in
            if den == 0
            then flag raw division_by_zero
            else normalise (to_minutes (add total (ratio (number num) den))) raw
        | none ↦
            normalise (to_minutes (add total (ratio (number (or_else (group_text 4 gs) [])) 1))) raw
      ]

  -- The patterns in turn, on a text that is not blank.
  unfoldable pub read_rating : Text → Text → ParsedFireRating
  read_rating raw s =
      if is_listed s not_rated
      then record {
        raw = raw;
        minutes = none;
        absent = true;
        needs_review = false;
        reason = no_reason;
      }
      else elim (match minutes_pattern s) [
        | some gs ↦ normalise (number (or_else (group_text 1 gs) [])) raw
        | none ↦ elim (match hours_pattern s) [
          | some gs ↦ from_hours raw gs
          | none ↦ elim (match label_pattern s) [
            | some gs ↦ from_label raw (letter_minutes (or_else (group_text 1 gs) []))
            | none ↦ flag raw unrecognised
          ]
        ]
      ]

  -- Upper case, one space for each run, no double quotes.
  unfoldable pub tidy : Text → Text
  tidy raw = keep (λ c. not (c == 34)) (collapse false (to_upper (strip raw)))

  unfoldable pub parse_fire_rating : Option Text → ParsedFireRating
  parse_fire_rating none = flag [] no_rating
  parse_fire_rating (some raw) =
      if is_blank raw then flag raw no_rating else read_rating raw (tidy raw)
