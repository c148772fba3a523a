-- ===== src/Parsers/Handing/Laws.antt =====
-- What the handing parser promises (backend/pipeline/parsers/handing.py).
use cbc_new.Prelude.{
  String, ◌≡◌, ◌↔◌, ◌⊎◌, inl, inr, true, false, Option, none, some, List, [], ◌∷◌, arith,
  Bool-cases,
}
use cbc_new.Prelude.Text.{Text, codes, is_blank, strip, to_upper, text_eq, eq_of_text_eq}
use cbc_new.Parsers.Handing.{
  Handing, ok, canonical, find_canonical, letters, states_absence, parse_handing,
}

-- The pair stands in the table.
abbrev pub IsEntry : Text → Handing → List (String × Handing) → Type 0
IsEntry text h [] = ⊥
IsEntry text h ((w, k) ∷ ws) = ((text ≡ codes w) × (h ≡ k)) ⊎ IsEntry text h ws

find_canonical_sound :
    (text : Text) (h : Handing) (ws : List (String × Handing))
    → find_canonical text ws ≡ some h
    → IsEntry text h ws
unfolding find_canonical
find_canonical_sound text h [] e = cc
find_canonical_sound text h ((w, k) ∷ ws) e = elim (Bool-cases (text_eq text (codes w))) [
  | inl same ↦ inl (eq_of_text_eq text (codes w) same, ground (arith, same))
  | inr other ↦ inr (find_canonical_sound text h ws (ground (arith, other)))
]

-- A hand is given only for a text whose letters are, in upper case, a key of the table for that
-- hand, and only where the text does not state that the opening is not handed.
pub handing_sound :
    (raw : Text) (h : Handing)
    → (parse_handing (some raw)).handing ≡ some h
    → IsEntry (letters (to_upper (strip raw))) h canonical
      × (states_absence (to_upper (strip raw)) ≡ false)
      × (is_blank raw ≡ false)
unfolding parse_handing
handing_sound raw h e = (
  find_canonical_sound (letters (to_upper (strip raw))) h canonical (ground arith),
  ground arith,
  ground arith,
)

-- Absence is reported exactly for a text that is not blank and, in upper case, states it.
pub handing_absent_iff :
    (raw : Text)
    → ((parse_handing (some raw)).absent ≡ true)
      ↔ ((is_blank raw ≡ false) × (states_absence (to_upper (strip raw)) ≡ true))
unfolding parse_handing
handing_absent_iff raw = (λ e. ground arith, λ h. ground arith)

-- The result has a hand, or states an absence, or asks for review, and no two of the three.
pub handing_trichotomy :
    (raw : Option Text)
    → let p = parse_handing raw in
      ((p.needs_review ≡ true) ↔ (ok p ≡ false)) × ((p.absent ≡ true) → p.handing ≡ none)
unfolding parse_handing ok
handing_trichotomy none = ground arith
handing_trichotomy (some raw) = ground arith
