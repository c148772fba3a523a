-- ===== src/Parsers/Size/Tests.antt =====
-- Runs of the size parser, and its theorem at an input.
use cbc_new.Prelude.{if◌then◌else◌, ◌==◌, ◌||◌, ◌*◌, ◌+◌, arith, ◌≡◌, refl, some}
use cbc_new.Prelude.Text.{codes, is_blank, strip, to_upper}
use cbc_new.Prelude.Regex.{match}
use cbc_new.Parsers.Size.Digits.{parse_size_spaced}
use cbc_new.Parsers.Size.{
  flag, sized, unrecognised, inches_out_of_range, zero_feet, from_digits, from_feet_inches,
  read_size, parse_size,
}

runs : Unit {0}
unfolding parse_size read_size from_digits from_feet_inches match is_blank strip to_upper
runs = tt

short_code : parse_size (some (codes "30-70")) ≡ sized (codes "30-70") 36 84
unfolding runs
short_code = refl

split_columns :
    parse_size (some (codes "3' - 6\" 7' - 0\"")) ≡ sized (codes "3' - 6\" 7' - 0\"") 42 84
unfolding runs
split_columns = refl

-- The pattern tries again with fewer digits for the inches.
no_separator : parse_size (some (codes "3'107'0")) ≡ sized (codes "3'107'0") 46 84
unfolding runs
no_separator = refl

half_a_size : parse_size (some (codes "3' - 0\"")) ≡ flag (codes "3' - 0\"") unrecognised
unfolding runs
half_a_size = refl

bad_inches :
    parse_size (some (codes "3'-14\" x 7'-0\""))
    ≡ flag (codes "3'-14\" x 7'-0\"") inches_out_of_range
unfolding runs
bad_inches = refl

-- No feet are refused in the four-digit form, and accepted in the explicit form.
no_feet_code : parse_size (some (codes "0070")) ≡ flag (codes "0070") zero_feet
unfolding runs
no_feet_code = refl

no_feet_explicit :
    parse_size (some (codes "0'-0\" x 7'-0\"")) ≡ sized (codes "0'-0\" x 7'-0\"") 0 84
unfolding runs
no_feet_explicit = refl

parse_size_spaced_example : parse_size (some (codes " 3-0 7-0")) ≡ (
    if 3 == 0 || 7 == 0
    then flag (codes " 3-0 7-0") zero_feet
    else sized (codes " 3-0 7-0") (3 * 12 + 0) (7 * 12 + 0))
parse_size_spaced_example =
    parse_size_spaced (codes " 3-0 7-0") 3 0 7 0 (omega arith) (omega arith) (omega arith)
      (omega arith) refl
