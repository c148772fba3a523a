-- ===== src/Parsers/ThroatDepth.antt =====
-- backend/pipeline/parsers/throat_depth.py: a wall type in the table of throat depths, exactly or by
-- containment. The raw text of a result is that of the argument, and left out.

use mathlib.Core.List.{Memᴰ}
use cbc_new.Prelude.{
  sym, arith, map, Bool-cases, inl, inr, ◌≡◌, refl, String, Bool, true, false, not, ◌&&◌, ◌||◌,
  Option, none, some, List, [], ◌∷◌, is_empty, if◌then◌else◌, ◌==◌,
}
use cbc_new.Prelude.Text.{Text, is_blank, text_eq}
use cbc_new.Parsers.Finish.{
  Reason, no_reason, nothing_found, not_in_table, normalise_token, get, put,
}

pub record ThroatDepth : Type 0 where
  pub id : String
  pub wall_type : Text

pub record ParsedThroatDepth : Type 0 where
  pub depth : Option ThroatDepth
  pub needs_review : Bool
  pub reason : Reason

-- `load_lookup`
unfoldable pub load_from : List (Text × ThroatDepth) → List ThroatDepth → List (Text × ThroatDepth)
load_from table [] = table
load_from table (row ∷ rows) = load_from (put (normalise_token row.wall_type) row table) rows

unfoldable pub starts_with : Text → Text → Bool
starts_with [] s = true
starts_with (c ∷ t) [] = false
starts_with (c ∷ t) (d ∷ s) = (c == d) && starts_with t s

-- `needle in text`
unfoldable pub occurs_in : Text → Text → Bool
unfolding starts_with
occurs_in needle [] = starts_with needle []
occurs_in needle (c ∷ s) = starts_with needle (c ∷ s) || occurs_in needle s

abbrev pub is_contained : Text → Text → Bool
is_contained token key = not (is_empty key) && (occurs_in key token || occurs_in token key)

-- The loop over the entries of the table.
unfoldable pub contained : Text → List (Text × ThroatDepth) → Option ThroatDepth
contained token [] = none
contained token ((key, depth) ∷ entries) =
    if is_contained token key then some depth else contained token entries

abbrev pub depth_or : Option ThroatDepth → ParsedThroatDepth → ParsedThroatDepth
depth_or (some depth) other = record {
  depth = some depth;
  needs_review = false;
  reason = no_reason;
}
depth_or none other = other

unfoldable pub parse_throat_depth : Option Text → List (Text × ThroatDepth) → ParsedThroatDepth
parse_throat_depth none table = record { depth = none; needs_review = true; reason = nothing_found }
parse_throat_depth (some raw) table =
    if is_blank raw
    then record { depth = none; needs_review = true; reason = nothing_found }
    else let token = normalise_token raw in
      depth_or (get token table) (
        depth_or (contained token table)
          (record { depth = none; needs_review = true; reason = not_in_table }))

-- Some entry of the table has a key.
abbrev pub has_key : List (Text × ThroatDepth) → Bool
has_key [] = false
has_key ((key, depth) ∷ entries) = not (is_empty key) || has_key entries

nothing_occurs : (s : Text) → occurs_in [] s ≡ true
unfolding occurs_in starts_with
nothing_occurs [] = refl
nothing_occurs (c ∷ s) = refl

-- The rows of a table.
abbrev pub rows_of : List (Text × ThroatDepth) → List ThroatDepth
rows_of table = map (λ entry. entry.1) table

-- A row of the table, without a review.
pub record IsResolved (table : List (Text × ThroatDepth)) (parsed : ParsedThroatDepth)
    : Type 0 where
  pub row : ThroatDepth
  pub in_table : Memᴰ row (rows_of table)
  pub found : parsed.depth ≡ some row
  pub unreviewed : parsed.needs_review ≡ false

-- The first row of the table whose key is contained, for the empty token.
contained_nothing :
    (table : List (Text × ThroatDepth))
    → has_key table ≡ true
    → (row : ThroatDepth) × Memᴰ row (rows_of table) × (contained [] table ≡ some row)
unfolding contained
contained_nothing [] h = absurd cc
contained_nothing (([], depth) ∷ entries) h =
    let (row, later, e) = contained_nothing entries h in (row, Memᴰ.tail later, e)
contained_nothing ((c ∷ key, depth) ∷ entries) h =
    (depth, Memᴰ.head refl, rw (nothing_occurs (c ∷ key)) (split (occurs_in (c ∷ key) [])))
  where
    split : (b : Bool) → (if b || true then some depth else contained [] entries) ≡ some depth
    split true = refl
    split false = refl

mem-get :
    (key : Text) (table : List (Text × ThroatDepth)) (row : ThroatDepth)
    → get key table ≡ some row
    → Memᴰ row (rows_of table)
unfolding get
mem-get key [] row e = absurd cc
mem-get key ((name, depth) ∷ entries) row e = elim (Bool-cases (text_eq name key)) [
  | inl same ↦ let here : depth ≡ row = ground (arith, same) in Memᴰ.head (sym here)
  | inr other ↦ Memᴰ.tail (mem-get key entries row (rw (other, get) at e))
]

module _ (table : List (Text × ThroatDepth)) (row : ThroatDepth)
    (in_table : Memᴰ row (rows_of table)) where
  IsResolved-depth_or :
      (first : Option ThroatDepth) (other : ParsedThroatDepth)
      → ((exact : ThroatDepth) → first ≡ some exact → Memᴰ exact (rows_of table))
      → IsResolved table (depth_or first (depth_or (some row) other))
  IsResolved-depth_or (some exact) other h = record {
    row = exact;
    in_table = h exact refl;
    found = refl;
    unreviewed = refl;
  }
  IsResolved-depth_or none other h = record {
    row = row;
    in_table = in_table;
    found = refl;
    unreviewed = refl;
  }

-- A wall type without a letter or a digit that is not blank, such as a dash, is resolved to a row of
-- the table without a review, whatever the table is, if one of its rows has a letter or a digit.
pub no_wall_type_resolves :
    (raw : Text) (table : List (Text × ThroatDepth))
    → is_blank raw ≡ false
    → normalise_token raw ≡ []
    → has_key table ≡ true
    → IsResolved table (parse_throat_depth (some raw) table)
unfolding parse_throat_depth
no_wall_type_resolves raw table filled empty h =
    let (row, in_table, e) = contained_nothing table h in
    rw (filled, empty, e)
      (IsResolved-depth_or table row in_table (get [] table)
        (record { depth = none; needs_review = true; reason = not_in_table }) (mem-get [] table))
