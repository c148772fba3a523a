-- ===== src/Parsers/Finish/Tests.antt =====
-- Runs of the two lookups, and their theorems at inputs.
use cbc_new.Prelude.{◌≡◌, refl, some, List, ◌∷◌, []}
use cbc_new.Prelude.Text.{codes, is_blank, to_upper}
use cbc_new.Parsers.Finish.{
  FinishCode, normalise_token, get, put, load_from, load_lookup, parse_finish,
}
use cbc_new.Parsers.Finish.Exact.{IsExact, parse_finish-IsExact}
use cbc_new.Parsers.ThroatDepth.{
  ThroatDepth, load_from as load_depths, starts_with, occurs_in, contained, parse_throat_depth,
  no_wall_type_resolves, IsResolved,
}

runs : Unit {0}
unfolding is_blank to_upper normalise_token get put load_from load_lookup parse_finish load_depths
    starts_with occurs_in contained parse_throat_depth
runs = tt

abbrev satin : FinishCode
satin = record { id = "f1"; us_code = codes "US26D"; bhma_code = codes "626" }

abbrev finishes : List FinishCode
finishes = record { id = "f0"; us_code = codes "US19"; bhma_code = codes "622" } ∷ satin ∷ []

reads_both :
    ((parse_finish (some (codes "us 26-d")) (load_lookup finishes)).code ≡ some satin)
    × ((parse_finish (some (codes "626")) (load_lookup finishes)).code ≡ some satin)
unfolding runs
reads_both = (refl, refl)

parse_finish-IsExact_example :
    IsExact finishes
      (codes "us 26-d")
      (parse_finish (some (codes "us 26-d")) (load_lookup finishes))
parse_finish-IsExact_example = parse_finish-IsExact finishes (codes "us 26-d")

abbrev depths : List ThroatDepth
depths = record { id = "t1"; wall_type = codes "6\" metal stud" } ∷ []

no_wall_type_resolves_example :
    IsResolved
      (load_depths [] depths)
      (parse_throat_depth (some (codes "--")) (load_depths [] depths))
unfolding runs
no_wall_type_resolves_example =
    no_wall_type_resolves (codes "--") (load_depths [] depths) refl refl refl
