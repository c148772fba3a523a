-- ===== src/Parsers/Size.antt =====
-- backend/pipeline/parsers/size.py
pub mod Laws
pub mod Digits
mod Tests
use cbc_new.Prelude.{
  ℕ, ◌+◌, ◌*◌, ◌/◌, ◌%◌, Bool, true, false, not, ◌||◌, Option, none, some, List, [], ◌∷◌, ◌++◌,
  if◌then◌else◌, ◌==◌, ltb, keep, is_some, or_else, ◌&&◌,
}
use cbc_new.Prelude.Text.{Text, is_digit, is_space, is_blank, strip, to_upper, number, codes}
use cbc_new.Prelude.Regex.{Regex, one, many, group, option, ◌then_match◌, Groups, group_text, match}

pub data Reason : Type 0 where
  no_reason no_size zero_feet inches_out_of_range unrecognised : Reason

pub record ParsedSize : Type 0 where
  pub raw : Text
  pub width_inches : Option ℕ
  pub height_inches : Option ℕ
  pub needs_review : Bool
  pub reason : Reason

unfoldable pub ok : ParsedSize → Bool
ok p = is_some p.width_inches && is_some p.height_inches

unfoldable pub flag : Text → Reason → ParsedSize
flag raw reason = record {
  raw = raw;
  width_inches = none;
  height_inches = none;
  needs_review = true;
  reason = reason;
}

unfoldable pub sized : Text → ℕ → ℕ → ParsedSize
sized raw width height = record {
  raw = raw;
  width_inches = some width;
  height_inches = some height;
  needs_review = false;
  reason = no_reason;
}

abbrev pub four_digit : Regex
four_digit =
    group 1 1 1 is_digit
    then_match group 2 1 1 is_digit
    then_match group 3 1 1 is_digit
    then_match group 4 1 1 is_digit

abbrev feet_mark : ℕ → Bool
feet_mark c = c == 39

abbrev inch_mark : ℕ → Bool
inch_mark c = c == 34

abbrev dash_or_space : ℕ → Bool
dash_or_space c = c == b'-' || is_space c

-- The letter x in either case, or the multiplication sign.
abbrev times : ℕ → Bool
times c = c == b'x' || c == b'X' || c == 215

-- One feet-and-inches group, with its closing mark and the spaces before the next.
abbrev feet_inches : ℕ → ℕ → Regex
feet_inches feet inches =
    group feet 1 2 is_digit
    then_match many is_space
    then_match one feet_mark
    then_match many is_space
    then_match option (one dash_or_space)
    then_match many is_space
    then_match option (group inches 1 2 is_digit)
    then_match many is_space
    then_match option (one inch_mark)

abbrev pub explicit : Regex
explicit =
    feet_inches 1 2
    then_match many is_space
    then_match option (one times then_match many is_space)
    then_match feet_inches 3 4

abbrev pub max_inches : ℕ
max_inches = 11

-- `int(match.group(i) or 0)`; a group of digits is never empty.
unfoldable pub number_of : ℕ → Groups → ℕ
unfolding number group_text
number_of i gs = number (or_else (group_text i gs) [])

unfoldable pub from_digits : Text → Groups → ParsedSize
unfolding number_of flag sized
from_digits raw gs =
    let w_ft = number_of 1 gs in
    let h_ft = number_of 3 gs in
    if w_ft == 0 || h_ft == 0
    then flag raw zero_feet
    else sized raw (w_ft * 12 + number_of 2 gs) (h_ft * 12 + number_of 4 gs)

unfoldable pub from_feet_inches : Text → Groups → ParsedSize
unfolding number_of flag sized
from_feet_inches raw gs =
    let w_in = number_of 2 gs in
    let h_in = number_of 4 gs in
    if ltb max_inches w_in || ltb max_inches h_in
    then flag raw inches_out_of_range
    else sized raw (number_of 1 gs * 12 + w_in) (number_of 3 gs * 12 + h_in)

-- The two patterns in turn, on a text that is not blank.
unfoldable pub read_size : Text → Text → ParsedSize
read_size raw text = elim (match four_digit (keep (λ c. not (is_space c || c == b'-')) text)) [
  | some gs ↦ from_digits raw gs
  | none ↦ elim (match explicit text) [
    | some gs ↦ from_feet_inches raw gs
    | none ↦ flag raw unrecognised
  ]
]

unfoldable pub parse_size : Option Text → ParsedSize
parse_size none = flag [] no_size
parse_size (some raw) =
    if is_blank raw then flag raw no_size else read_size raw (to_upper (strip raw))
