-- ===== src/Parsers/Handing/Tests.antt =====
-- Runs of the handing parser, and its theorems at inputs.
use cbc_new.Prelude.{◌≡◌, refl, true, false, some}
use cbc_new.Prelude.Text.{codes, is_blank, strip, to_upper, is_listed}
use cbc_new.Parsers.Handing.{
  lh, lhr, canonical, find_canonical, letters, states_absence, parse_handing,
}
use cbc_new.Parsers.Handing.Laws.{IsEntry, handing_sound}

runs : Unit {0}
unfolding parse_handing find_canonical letters states_absence is_listed is_blank strip to_upper
runs = tt

reverse_bevel : (parse_handing (some (codes " L.H.R.B. "))).handing ≡ some lhr
unfolding runs
reverse_bevel = refl

a_pair : (parse_handing (some (codes "Pair"))).absent ≡ true
unfolding runs
a_pair = refl

both_hands : (parse_handing (some (codes "L/R"))).needs_review ≡ true
unfolding runs
both_hands = refl

handing_sound_example :
    IsEntry (letters (to_upper (strip (codes "left")))) lh canonical
    × (states_absence (to_upper (strip (codes "left"))) ≡ false)
    × (is_blank (codes "left") ≡ false)
unfolding runs
handing_sound_example = handing_sound (codes "left") lh refl
