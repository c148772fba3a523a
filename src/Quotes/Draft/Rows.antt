-- ===== src/Quotes/Draft/Rows.antt =====
-- Rows under a test and under assembly, and what the loops of the draft make (_create_line and
-- generate_lines of backend/api/quotes/draft_ops.py).

use cbc_new.Prelude.{
  ◌≡◌, refl, ap, Bool, true, false, not, ◌||◌, List, [], ◌∷◌, ◌++◌, map, keep, any, arith,
  Bool-cases, inl, inr, All,
}
use cbc_new.Quotes.{LineRow}
use cbc_new.Quotes.Repriced.{KeepsRow, IsRepriced}

module _ {A : Type 0} where
  pub keep-All : (p : A → Bool) (xs : List A) → All (λ x. p x ≡ true) xs → keep p xs ≡ xs
  keep-All p [] h = refl
  keep-All p (x ∷ xs) h = rw h.0 (ap (λ l. x ∷ l) (keep-All p xs h.1))

  pub keep_none : (p : A → Bool) (xs : List A) → All (λ x. p x ≡ false) xs → keep p xs ≡ []
  keep_none p [] h = refl
  keep_none p (x ∷ xs) h = rw h.0 (keep_none p xs h.1)

  pub keep-keep-not : (p : A → Bool) (xs : List A) → keep p (keep (λ x. not (p x)) xs) ≡ []
  keep-keep-not p [] = refl
  keep-keep-not p (x ∷ xs) = elim (Bool-cases (p x)) [
    | inl dropped ↦ rw dropped (keep-keep-not p xs)
    | inr kept ↦ rw (kept, kept) (keep-keep-not p xs)
  ]

  pub any-append : (p : A → Bool) (xs ys : List A) → any p (xs ++ ys) ≡ (any p xs || any p ys)
  any-append p [] ys = refl
  any-append p (x ∷ xs) ys = rw (any-append p xs ys) (ground arith)

  pub map-append :
      {B : Type 0} (f : A → B) (xs ys : List A) → map f (xs ++ ys) ≡ map f xs ++ map f ys
  map-append f [] ys = refl
  map-append f (x ∷ xs) ys = ap (λ l. f x ∷ l) (map-append f xs ys)

  pub All-append_of : (P : A → Type 0) (xs ys : List A) → All P xs → All P ys → All P (xs ++ ys)
  All-append_of P [] ys h g = g
  All-append_of P (x ∷ xs) ys h g = (h.0, All-append_of P xs ys h.1 g)

-- A value of a row that pricing does not change.
abbrev pub IsFixed : {B : Type 0} → (LineRow → B) → Type 0
IsFixed f = (row row' : LineRow) → KeepsRow row row' → f row' ≡ f row

pub map_fixed :
    {B : Type 0} (f : LineRow → B) (rows rows' : List LineRow)
    → IsFixed f
    → IsRepriced rows rows'
    → map f rows' ≡ map f rows
map_fixed f [] [] fixed h = refl
map_fixed f (row ∷ rows) (row' ∷ rows') fixed h =
    rw (fixed row row' h.0, map_fixed f rows rows' fixed h.1) refl
map_fixed f [] (row' ∷ rows') fixed h = elim h [ ]
map_fixed f (row ∷ rows) [] fixed h = elim h [ ]

pub any_fixed :
    (p : LineRow → Bool) (rows rows' : List LineRow)
    → IsFixed p
    → IsRepriced rows rows'
    → any p rows' ≡ any p rows
any_fixed p [] [] fixed h = refl
any_fixed p (row ∷ rows) (row' ∷ rows') fixed h =
    rw (fixed row row' h.0, any_fixed p rows rows' fixed h.1) refl
any_fixed p [] (row' ∷ rows') fixed h = elim h [ ]
any_fixed p (row ∷ rows) [] fixed h = elim h [ ]

pub keep-IsRepriced :
    (p : LineRow → Bool) (rows rows' : List LineRow)
    → IsFixed p
    → IsRepriced rows rows'
    → IsRepriced (keep p rows) (keep p rows')
keep-IsRepriced p [] [] fixed h = tt
keep-IsRepriced p (row ∷ rows) (row' ∷ rows') fixed h =
    let same = fixed row row' h.0 in
    let later = keep-IsRepriced p rows rows' fixed h.1 in
    elim (Bool-cases (p row)) [
      | inl kept ↦ rw (same, kept) (h.0, later)
      | inr dropped ↦ rw (same, dropped) later
    ]
keep-IsRepriced p [] (row' ∷ rows') fixed h = elim h [ ]
keep-IsRepriced p (row ∷ rows) [] fixed h = elim h [ ]

-- A property of a row that pricing keeps.
pub All-repriced :
    (P : LineRow → Type 0) (rows rows' : List LineRow)
    → ((row row' : LineRow) → KeepsRow row row' → P row → P row')
    → IsRepriced rows rows'
    → All P rows
    → All P rows'
All-repriced P [] [] keeps h g = tt
All-repriced P (row ∷ rows) (row' ∷ rows') keeps h g =
    (keeps row row' h.0 g.0, All-repriced P rows rows' keeps h.1 g.1)
All-repriced P [] (row' ∷ rows') keeps h g = elim h [ ]
All-repriced P (row ∷ rows) [] keeps h g = elim h [ ]
