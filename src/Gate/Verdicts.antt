-- ===== src/Gate/Verdicts.antt =====
-- When the gate accepts, accepts an absence, and refuses (validate_field of
-- backend/pipeline/llm/validators/gate.py).
use cbc_new.Prelude.{
  ℕ, String, ◌≡◌, refl, ◌≢◌, ◌↔◌, inl, inr, true, false, not, List, [], ◌∷◌, Option, none, some,
  arith, Option-cases, All, is_empty, keep,
}
use cbc_new.Prelude.Text.{Text, join}
use cbc_new.Prelude.Dict.{Dict, lookup, has_key}
use cbc_new.Prelude.Float.{Float}
use cbc_new.Prelude.Fuzz.{Fuzz}
use cbc_new.Gate.{
  accept, accept_null, reject, unknown_element, FieldVerdict, is_null, texts_of, unknown_ids,
  refusal, check_grounding, grounding_score, grounded, validate_field,
}

-- Every citation names an element that the model was shown.
abbrev pub AllSupplied : List String → Dict Text → Type 0
AllSupplied ids supplied = All (λ eid. has_key eid supplied ≡ true) ids

AllSupplied-of_unknown_ids :
    (ids : List String) (supplied : Dict Text)
    → is_empty (unknown_ids ids supplied) ≡ true
    → AllSupplied ids supplied
unfolding unknown_ids
AllSupplied-of_unknown_ids [] supplied h = tt
AllSupplied-of_unknown_ids (eid ∷ ids) supplied h =
    ground (arith, AllSupplied-of_unknown_ids ids supplied)

texts_of_total :
    (ids : List String) (supplied : Dict Text)
    → AllSupplied ids supplied
    → (texts : List Text) × (texts_of ids supplied ≡ some texts)
unfolding texts_of has_key
texts_of_total [] supplied h = ([], refl)
texts_of_total (eid ∷ ids) supplied h =
    let (ts, e) = texts_of_total ids supplied h.1 in
    elim (Option-cases (lookup eid supplied)) [
      | inl no_entry ↦ absurd (ground (arith, no_entry, h.0))
      | inr (t, found) ↦ (t ∷ ts, ground (arith, found, e))
    ]

-- What an accepted value has: citations, all of them supplied, and a score against the text of the
-- cited elements that reaches the floor.
pub record IsGrounded (fl : Float) (fz : Fuzz (fl.F)) (value : Option Text) (ids : List String)
    (supplied : Dict Text) (min_ratio : ℕ) : Type 0 where
  pub text : Text
  pub texts : List Text
  pub has_value : value ≡ some text
  pub not_null : is_null value ≡ false
  pub cited : is_empty ids ≡ false
  pub all_supplied : AllSupplied ids supplied
  pub looked_up : texts_of ids supplied ≡ some texts
  pub reaches : (grounded fl fz text (join texts) min_ratio).0 ≡ true

module _ (fl : Float) (fz : Fuzz (fl.F)) where
  check_grounding-ne-none :
      (value : Option Text) (ids : List String) (supplied : Dict Text) (min_ratio : ℕ)
      → AllSupplied ids supplied
      → check_grounding fl fz value ids supplied min_ratio ≢ none
  unfolding check_grounding
  check_grounding-ne-none none ids supplied min_ratio h e = cc
  check_grounding-ne-none (some t) ids supplied min_ratio h e =
      let (ts, found) = texts_of_total ids supplied h in ground (arith, found)

  validate_field-ne-none :
      (value : Option Text) (ids : List String) (supplied : Dict Text) (min_ratio : ℕ)
      → validate_field fl fz value ids supplied min_ratio ≢ none
  unfolding validate_field
  validate_field-ne-none value ids supplied min_ratio e = ground (
    arith,
    AllSupplied-of_unknown_ids ids supplied,
    check_grounding-ne-none value ids supplied min_ratio,
  )

  -- The gate always gives a verdict: no lookup of a cited element fails.
  pub validate_field_total :
      (value : Option Text) (ids : List String) (supplied : Dict Text) (min_ratio : ℕ)
      → (v : FieldVerdict (fl.F)) × (validate_field fl fz value ids supplied min_ratio ≡ some v)
  validate_field_total value ids supplied min_ratio =
      elim (Option-cases (validate_field fl fz value ids supplied min_ratio)) [
        | inl failed ↦ absurd (validate_field-ne-none value ids supplied min_ratio failed)
        | inr (v, e) ↦ (v, e)
      ]

  check_grounding_sound :
      (value : Option Text) (ids : List String) (supplied : Dict Text) (min_ratio : ℕ)
      (v : FieldVerdict (fl.F))
      → is_null value ≡ false
      → check_grounding fl fz value ids supplied min_ratio ≡ some v
      → v.verdict ≡ accept
      → (text : Text) × (texts : List Text) × (value ≡ some text)
        × (texts_of ids supplied ≡ some texts)
        × ((grounded fl fz text (join texts) min_ratio).0 ≡ true)
        × (v.grounding_score ≡ some (grounding_score fl fz text (join texts)))
  unfolding check_grounding is_null grounded
  check_grounding_sound none ids supplied min_ratio v present e a = cc
  check_grounding_sound (some t) ids supplied min_ratio v present e a =
      elim (Option-cases (texts_of ids supplied)) [
        | inl fails ↦ absurd (ground (arith, fails))
        | inr (ts, found) ↦ (t, ts, refl, found, ground (arith, found), ground (arith, found))
      ]

  -- A field is accepted only if it has a value that is not blank, at least one citation, every
  -- cited element is among those that the model was shown, and the score of the value against the
  -- joined text of the cited elements reaches the floor.
  pub accept_sound :
      (value : Option Text) (ids : List String) (supplied : Dict Text) (min_ratio : ℕ)
      (v : FieldVerdict (fl.F))
      → validate_field fl fz value ids supplied min_ratio ≡ some v
      → v.verdict ≡ accept
      → IsGrounded fl fz value ids supplied min_ratio
  unfolding validate_field
  accept_sound value ids supplied min_ratio v e a =
      let known : is_empty (unknown_ids ids supplied) ≡ true = ground arith in
      let present : is_null value ≡ false = ground arith in
      let cited : is_empty ids ≡ false = ground arith in
      let (text, texts, has_value, looked_up, reaches, _) =
        check_grounding_sound value ids supplied min_ratio v present (ground arith) a in
      record {
        text = text;
        texts = texts;
        has_value = has_value;
        not_null = present;
        cited = cited;
        all_supplied = AllSupplied-of_unknown_ids ids supplied known;
        looked_up = looked_up;
        reaches = reaches;
      }

  -- An absence is accepted exactly for a null or blank value that cites nothing.
  pub accept_null_iff :
      (value : Option Text) (ids : List String) (supplied : Dict Text) (min_ratio : ℕ)
      (v : FieldVerdict (fl.F))
      → validate_field fl fz value ids supplied min_ratio ≡ some v
      → (v.verdict ≡ accept_null) ↔ ((is_null value ≡ true) × (ids ≡ []))
  unfolding validate_field
  accept_null_iff value ids supplied min_ratio v e =
      (λ a. ground arith, λ (null, none_cited). ground arith)

  -- A citation of an element that was not supplied is refused whatever the value is, and the
  -- verdict lists just the unknown citations.
  pub unknown_rejected :
      (value : Option Text) (ids : List String) (supplied : Dict Text) (min_ratio : ℕ)
      → ¬ AllSupplied ids supplied
      → (v : FieldVerdict (fl.F)) × (validate_field fl fz value ids supplied min_ratio ≡ some v)
        × (v.verdict ≡ reject)
        × (v.code ≡ some unknown_element)
        × (v.unknown_ids ≡ keep (λ eid. not (has_key eid supplied)) ids)
        × (v.unknown_ids ≢ [])
  unfolding validate_field unknown_ids
  unknown_rejected value ids supplied min_ratio h = (
    refusal unknown_element none (unknown_ids ids supplied),
    ground (
      arith,
      λ (p : is_empty (unknown_ids ids supplied) ≡ true).
          h (AllSupplied-of_unknown_ids ids supplied p),
    ),
    refl,
    refl,
    refl,
    λ none_unknown. h (AllSupplied-of_unknown_ids ids supplied (rw none_unknown refl)),
  )
