-- ===== src/Parsers/Size/Laws.antt =====
-- What the size parser promises (backend/pipeline/parsers/size.py).

use cbc_new.Prelude.{
  ℕ, ◌+◌, ◌*◌, ◌≤◌, ◌≡◌, refl, ◌↔◌, inl, inr, Option-cases, Bool, true, false, ◌||◌, none, some, [],
  ◌∷◌, arith, if◌then◌else◌, ◌==◌, not, keep,
}
use cbc_new.Prelude.Text.{Text, is_space, is_blank, strip, to_upper}
use cbc_new.Prelude.Regex.{Groups, match}
use cbc_new.Parsers.Size.{
  ParsedSize, no_size, zero_feet, inches_out_of_range, unrecognised, flag, sized, ok, from_digits,
  from_feet_inches, read_size, parse_size, four_digit, explicit,
}

-- A result either flags and has no dimension, or has both dimensions and does not flag.
abbrev pub IsHonest : Text → ParsedSize → Type 0
IsHonest raw p =
    (p.raw ≡ raw)
    × ((p.needs_review ≡ true) ↔ (ok p ≡ false))
    × ((p.needs_review ≡ true) ↔ (p.width_inches ≡ none))
    × ((p.needs_review ≡ true) ↔ (p.height_inches ≡ none))

flag-IsHonest : (raw : Text) (r : _) → IsHonest raw (flag raw r)
unfolding flag ok
flag-IsHonest raw r = ground arith

sized-IsHonest : (raw : Text) (w h : ℕ) → IsHonest raw (sized raw w h)
unfolding sized ok
sized-IsHonest raw w h = ground arith

if-IsHonest :
    (raw : Text) (b : Bool) (p q : ParsedSize)
    → IsHonest raw p
    → IsHonest raw q
    → IsHonest raw (if b then p else q)
if-IsHonest raw true p q hp hq = hp
if-IsHonest raw false p q hp hq = hq

from_digits-IsHonest : (raw : Text) (gs : Groups) → IsHonest raw (from_digits raw gs)
unfolding from_digits
from_digits-IsHonest raw gs =
    if-IsHonest raw _ _ _ (flag-IsHonest raw zero_feet) (sized-IsHonest raw _ _)

from_feet_inches-IsHonest : (raw : Text) (gs : Groups) → IsHonest raw (from_feet_inches raw gs)
unfolding from_feet_inches
from_feet_inches-IsHonest raw gs =
    if-IsHonest raw _ _ _ (flag-IsHonest raw inches_out_of_range) (sized-IsHonest raw _ _)

read_size-IsHonest : (raw text : Text) → IsHonest raw (read_size raw text)
unfolding read_size
read_size-IsHonest raw text =
    let bare = keep (λ c. not (is_space c || c == b'-')) text in
    elim (Option-cases (match four_digit bare)) [
      | inr (gs, e) ↦ rw (e, read_size) (from_digits-IsHonest raw gs)
      | inl e ↦ elim (Option-cases (match explicit text)) [
        | inr (gs, f) ↦ rw (e, f, read_size) (from_feet_inches-IsHonest raw gs)
        | inl f ↦ rw (e, f, read_size) (flag-IsHonest raw unrecognised)
      ]
    ]

pub parse_size-none : (parse_size none).needs_review ≡ true
unfolding parse_size flag
parse_size-none = refl

-- The raw string is kept, and the result either has both dimensions and is not flagged, or has
-- neither and is flagged.
pub parse_size-IsHonest : (raw : Text) → IsHonest raw (parse_size (some raw))
unfolding parse_size read_size
parse_size-IsHonest raw =
    if-IsHonest raw (is_blank raw) _ _ (flag-IsHonest raw no_size)
      (read_size-IsHonest raw (to_upper (strip raw)))

-- The character of a digit between 0 and 9.
abbrev pub digit : ℕ → ℕ
digit n = b'0' + n

module _ (a b c d : ℕ) (ha : a ≤ 9) (hb : b ≤ 9) (hc : c ≤ 9) (hd : d ≤ 9) where
  abbrev pub four : Text
  four = digit a ∷ digit b ∷ digit c ∷ digit d ∷ []

  pub upper_four : to_upper four ≡ four
  unfolding to_upper
  upper_four = ground arith

  pub match-four :
      match four_digit four
      ≡ some ((4, digit d ∷ []) ∷ (3, digit c ∷ []) ∷ (2, digit b ∷ []) ∷ (1, digit a ∷ []) ∷ [])
  unfolding match
  match-four = ground arith

  pub read_four :
      (raw : Text)
      → from_digits raw
          ((4, digit d ∷ []) ∷ (3, digit c ∷ []) ∷ (2, digit b ∷ []) ∷ (1, digit a ∷ []) ∷ [])
        ≡ (if a == 0 || c == 0 then flag raw zero_feet else sized raw (a * 12 + b) (c * 12 + d))
  unfolding from_digits
  read_four raw = ground arith
