-- ===== src/Link/Opening/Review.antt =====
-- What an opening that asks for no review has (persist_opening of backend/pipeline/stages/link.py).
use cbc_new.Prelude.{
  ℕ, ◌≡◌, refl, ◌≢◌, ◌↔◌, ◌⊎◌, inl, inr, Bool, true, false, ◌||◌, Option, none, some, List, [], ◌∷◌,
  arith, All, any, is_some, Option-cases,
}
use cbc_new.Prelude.Text.{Text}
use cbc_new.Prelude.Float.{Float}
use cbc_new.Parsers.Size
use cbc_new.Parsers.Size.Laws.{parse_size-IsHonest, parse_size-none}
use cbc_new.Parsers.Handing
use cbc_new.Parsers.Handing.{Handing}
use cbc_new.Parsers.Handing.Laws.{handing_trichotomy}
use cbc_new.Parsers.FireRating
use cbc_new.Parsers.FireRating.Laws.{rating_trichotomy, parse_fire_rating-none}
use cbc_new.Link.{auto, LinkStats, LinkedField}
use cbc_new.Link.Opening.{
  ModelRecord, Opening, is_rejected, is_flagged, raw, door_number_of, opening_needs_review,
  opening_of, persist_opening,
}

-- An opening on which matching can work: its zero-tolerance fields are settled, by a value or by a
-- stated absence, and it has a size.
pub record IsSettled {F : Type 0} (o : Opening F) : Type 0 where
  pub width : ℕ
  pub height : ℕ
  pub sized : (o.width_inches ≡ some width) × (o.height_inches ≡ some height)
  pub rated : (o.fire_rating_minutes ≢ none) ⊎ (o.fire_rating_absent ≡ true)
  pub handed : (o.handing ≢ none) ⊎ (o.handing_absent ≡ true)

size_settled :
    (text : Option Text)
    → (Size.parse_size text).needs_review ≡ false
    → (w : ℕ) × (h : ℕ) × ((Size.parse_size text).width_inches ≡ some w)
      × ((Size.parse_size text).height_inches ≡ some h)
size_settled none e = absurd (cc (parse_size-none, e))
size_settled (some t) e =
    let (_, _, no_width, no_height) = parse_size-IsHonest t in
    elim (Option-cases ((Size.parse_size (some t)).width_inches)) [
      | inl none_wide ↦ absurd (let flagged_too = no_width.1 none_wide in cc)
      | inr (w, ew) ↦ elim (Option-cases ((Size.parse_size (some t)).height_inches)) [
        | inl none_high ↦ absurd (let flagged_too = no_height.1 none_high in cc)
        | inr (h, eh) ↦ (w, h, ew, eh)
      ]
    ]

settled_of {ℓ} :
    {A : Type ℓ} (o : Option A) (absent review : Bool)
    → (review ≡ true) ↔ ((is_some o || absent) ≡ false)
    → review ≡ false
    → (o ≢ none) ⊎ (absent ≡ true)
settled_of none true review h e = inr refl
settled_of none false review h e = absurd (let flagged_too = h.1 refl in cc)
settled_of (some x) absent review h e = inl (λ p. cc)

rating_settled :
    (fl : Float) (text : Option Text)
    → (FireRating.parse_fire_rating fl text).needs_review ≡ false
    → ((FireRating.parse_fire_rating fl text).minutes ≢ none)
      ⊎ ((FireRating.parse_fire_rating fl text).absent ≡ true)
unfolding FireRating.ok
rating_settled fl none e = absurd (cc (parse_fire_rating-none fl, e))
rating_settled fl (some t) e = settled_of _ _ _ (rating_trichotomy fl t).0 e

handing_settled :
    (text : Option Text)
    → (Handing.parse_handing text).needs_review ≡ false
    → ((Handing.parse_handing text).handing ≢ none) ⊎ ((Handing.parse_handing text).absent ≡ true)
unfolding Handing.ok
handing_settled text e = settled_of _ _ _ (handing_trichotomy text).0 e

any-false {ℓ} :
    {A : Type ℓ} (p : A → Bool) (xs : List A) → any p xs ≡ false → All (λ x. p x ≡ false) xs
any-false p [] h = tt
any-false p (x ∷ xs) h = (ground arith, any-false p xs (ground arith))

module _ (fl : Float) (record_in : ModelRecord (fl.F)) (linked : List (LinkedField (fl.F))) where
  opening_of-unflagged :
      (door_number : Text)
      → (opening_of fl record_in linked door_number).review_state ≡ auto
      → opening_needs_review record_in linked
          (Size.parse_size (raw "size" linked))
          (FireRating.parse_fire_rating fl (raw "fire_rating" linked))
          (Handing.parse_handing (raw "handing" linked))
        ≡ false
  unfolding opening_of
  opening_of-unflagged door_number e = ground arith

  opening_of-IsSettled :
      (door_number : Text)
      → (opening_of fl record_in linked door_number).review_state ≡ auto
      → IsSettled (opening_of fl record_in linked door_number)
        × (record_in.needs_review ≡ false)
        × All (λ (l : LinkedField (fl.F)). is_rejected l.review_state ≡ false) linked
        × All (λ (l : LinkedField (fl.F)). is_flagged l.review_state ≡ false) linked
  unfolding opening_of opening_needs_review
  opening_of-IsSettled door_number e =
      let clear = opening_of-unflagged door_number e in
      let (w, h, ew, eh) = size_settled (raw "size" linked) (ground arith) in
      (
        record {
          width = w;
          height = h;
          sized = (ew, eh);
          rated = rating_settled fl (raw "fire_rating" linked) (ground arith);
          handed = handing_settled (raw "handing" linked) (ground arith);
        },
        ground arith,
        any-false _ linked (ground arith),
        any-false _ linked (ground arith),
      )

  opening_of_persisted :
      (stats : LinkStats) (o : Opening (fl.F))
      → (persist_opening fl record_in linked stats).0 ≡ some o
      → opening_of fl record_in linked (door_number_of record_in linked) ≡ o
  unfolding persist_opening
  opening_of_persisted stats o e = ground arith

-- An opening is written, without a review, only if no field was refused or flagged and the model did
-- not ask for a review; and then it has both dimensions, and its rating and its hand are each given
-- by a value or by a stated absence.
pub persist_opening-IsSettled :
    (fl : Float) (record_in : ModelRecord (fl.F)) (linked : List (LinkedField (fl.F)))
    (stats : LinkStats) (o : Opening (fl.F))
    → (persist_opening fl record_in linked stats).0 ≡ some o
    → o.review_state ≡ auto
    → IsSettled o
      × (record_in.needs_review ≡ false)
      × All (λ (l : LinkedField (fl.F)). is_rejected l.review_state ≡ false) linked
      × All (λ (l : LinkedField (fl.F)). is_flagged l.review_state ≡ false) linked
persist_opening-IsSettled fl record_in linked stats o e a =
    let same = opening_of_persisted fl record_in linked stats o e in
    let door = door_number_of record_in linked in
    let settled = opening_of-IsSettled fl record_in linked door (rw same a) in
    (rw same at (settled.0), settled.1, settled.2, settled.3)
