-- ===== src/Gate/Grounding.antt =====
-- What the text search of the grounding check decides (backend/pipeline/llm/validators/gate.py).
use cbc_new.Prelude.{
  ℕ, ◌*◌, ◌≤◌, ◌≡◌, refl, ap, ◌↔◌, inl, inr, Bool-cases, true, false, [], ◌∷◌, ◌++◌, arith,
  is_empty,
}
use cbc_new.Prelude.Text.{Text}
use cbc_new.Prelude.Float.{Float, IsOrdered}
use cbc_new.Prelude.Fuzz.{Fuzz}
use cbc_new.Gate.{is_prefix, contains, normalise, grounding_score, grounded}

is_prefix_sound : (n t : Text) → is_prefix n t ≡ true → (post : Text) × (t ≡ n ++ post)
unfolding is_prefix
is_prefix_sound [] t h = (t, refl)
is_prefix_sound (c ∷ n) [] h = cc
is_prefix_sound (c ∷ n) (d ∷ t) h =
    let (post, e) = is_prefix_sound n t (ground arith) in (post, ground (arith, e))

is_prefix-append : (n post : Text) → is_prefix n (n ++ post) ≡ true
unfolding is_prefix
is_prefix-append [] post = refl
is_prefix-append (c ∷ n) post = ground (arith, is_prefix-append n post)

contains_sound :
    (n t : Text) → contains n t ≡ true → (pre : Text) × (post : Text) × (t ≡ pre ++ (n ++ post))
unfolding contains
contains_sound n [] h = let (post, e) = is_prefix_sound n [] h in ([], post, e)
contains_sound n (c ∷ t) h = elim (Bool-cases (is_prefix n (c ∷ t))) [
  | inl p ↦ let (post, e) = is_prefix_sound n (c ∷ t) p in ([], post, e)
  | inr q ↦
      let (pre, post, e) = contains_sound n t (ground arith) in (c ∷ pre, post, ap (λ l. c ∷ l) e)
]

contains-append : (pre n post : Text) → contains n (pre ++ (n ++ post)) ≡ true
unfolding contains
contains-append [] [] [] = is_prefix-append [] []
contains-append [] [] (c ∷ post) = ground (arith, is_prefix-append [] (c ∷ post))
contains-append [] (d ∷ n) post = ground (arith, is_prefix-append (d ∷ n) post)
contains-append (c ∷ pre) n post = ground (arith, contains-append pre n post)

abbrev pub Occurs : Text → Text → Type 0
Occurs n t = (pre : Text) × (post : Text) × (t ≡ pre ++ (n ++ post))

pub contains_iff : (n t : Text) → (contains n t ≡ true) ↔ Occurs n t
contains_iff n t = (contains_sound n t, λ (pre, post, e). rw e (contains-append pre n post))

is_empty-append : (pre n post : Text) → is_empty n ≡ false → is_empty (pre ++ (n ++ post)) ≡ false
is_empty-append [] [] post h = cc
is_empty-append [] (c ∷ n) post h = refl
is_empty-append (d ∷ pre) n post h = refl

module _ (fl : Float) (fz : Fuzz (fl.F)) where
  grounding_score_of_Occurs :
      (value cited : Text)
      → is_empty (normalise fl fz value) ≡ false
      → Occurs (normalise fl fz value) (normalise fl fz cited)
      → grounding_score fl fz value cited ≡ fl.decimal 1_000_000
  unfolding grounding_score
  grounding_score_of_Occurs value cited h (pre, post, e) =
      let n = normalise fl fz value in
      rw (h, e, is_empty-append pre n post h, contains-append pre n post)

  -- For ordered floats, a value whose normalised text is not empty and occurs in the normalised cited
  -- text is grounded, for every floor of at most 100.
  pub grounded_of_Occurs :
      (o : IsOrdered fl) (value cited : Text) (min_ratio : ℕ)
      → is_empty (normalise fl fz value) ≡ false
      → Occurs (normalise fl fz value) (normalise fl fz cited)
      → min_ratio ≤ 100
      → (grounded fl fz value cited min_ratio).0 ≡ true
  unfolding grounded
  grounded_of_Occurs o value cited min_ratio h occurs low = rw (
    grounding_score_of_Occurs value cited h occurs,
    o.decimal-le (min_ratio * 10_000) 1_000_000 (omega arith),
  )
