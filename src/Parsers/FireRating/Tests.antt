-- ===== src/Parsers/FireRating/Tests.antt =====
-- Runs of the fire-rating parser, and its theorems at inputs.
use cbc_new.Prelude.{ℕ, ◌≡◌, refl, ◌⊎◌, true, some}
use cbc_new.Prelude.Text.{codes, is_blank, strip, to_upper, is_listed, collapse, number}
use cbc_new.Prelude.Regex.{match}
use cbc_new.Prelude.Float.{basis_points}
use cbc_new.Parsers.FireRating.{
  ambiguous_label, ok, is_rated, flag, normalise, from_label, whole_hours, to_minutes, from_hours,
  read_rating, tidy, parse_fire_rating,
}
use cbc_new.Parsers.FireRating.Laws.{rating_band}

runs : Unit {0}
unfolding parse_fire_rating read_rating tidy from_hours whole_hours to_minutes from_label normalise
    is_rated flag ok is_listed match is_blank strip to_upper collapse number
runs = tt

mixed_fraction : (parse_fire_rating basis_points (some (codes "1-1/2 hr"))).minutes ≡ some 90
unfolding runs
mixed_fraction = refl

three_quarters : (parse_fire_rating basis_points (some (codes "3 / 4 HOURS"))).minutes ≡ some 45
unfolding runs
three_quarters = refl

plain_minutes : (parse_fire_rating basis_points (some (codes " 20 min"))).minutes ≡ some 20
unfolding runs
plain_minutes = refl

letter_b :
    parse_fire_rating basis_points (some (codes "B LABEL")) ≡ flag (codes "B LABEL") ambiguous_label
unfolding runs
letter_b = refl

outside : (parse_fire_rating basis_points (some (codes "A LABEL"))).needs_review ≡ true
unfolding runs
outside = refl

rating_band_example : let m : ℕ = 90 in (m ≡ 20) ⊎ (m ≡ 45) ⊎ (m ≡ 60) ⊎ (m ≡ 90)
unfolding runs
rating_band_example = rating_band basis_points (codes "D") 90 refl
