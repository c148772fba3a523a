-- ===== src/Link/Fields.antt =====
-- The contract of linking (link_fields of backend/pipeline/stages/link.py), field by field.
use cbc_new.Prelude.{String, ◌≡◌, refl, ◌≢◌, true, false, Option, none, some, [], arith}
use cbc_new.Prelude.Dict.{is_member}
use cbc_new.Prelude.Float.{Float, Le}
use cbc_new.Prelude.Fuzz.{Fuzz}
use cbc_new.Gate.{Verdict, accept, accept_null, reject, FieldVerdict, is_null, validate_field}
use cbc_new.Gate.Verdicts.{IsGrounded, accept_sound, accept_null_iff}
use cbc_new.Link.{
  auto, rejected, LinkStats, Emitted, LinkedField, Context, threshold_for, review_value,
  review_absence, review_of, missing_field, refused_field, accepted_field, link_verdict,
}

module _ (fl : Float) (fz : Fuzz (fl.F)) (ctx : Context (fl.F)) where
  open fl use {F}

  -- What holds of each linked field.
  pub record IsLinked (l : LinkedField F) : Type 0 where
    -- A value that is not refused passed the gate with just the citations that are kept.
    pub traceable :
        l.review_state ≢ rejected
        → is_null l.value ≡ false
        → IsGrounded fl fz l.value l.element_ids ctx.supplied_elements
            ctx.settings.grounding_min_ratio
    -- A refused field keeps no citation.
    pub uncited : l.review_state ≡ rejected → l.element_ids ≡ []
    -- A zero-tolerance field that needs no review has a value and a confidence of at least the
    -- field's threshold.
    pub confirmed :
        is_member l.name ctx.zero_tolerance ≡ true
        → l.review_state ≡ auto
        → (is_null l.value ≡ false)
          × ((c : F) × (l.final_confidence ≡ some c) × Le fl (threshold_for ctx.settings l.name) c)

  pub missing-IsLinked : (penalty : F) (name : String) → IsLinked (missing_field fl fz penalty name)
  unfolding is_null
  missing-IsLinked penalty name = record {
    traceable = λ s n. cc;
    uncited = λ s. refl;
    confirmed = λ z a. cc;
  }

  refused-IsLinked :
      (penalty : F) (name : String) (e : Emitted F) (v : FieldVerdict F)
      → IsLinked (refused_field fl fz penalty name e v)
  unfolding refused_field
  refused-IsLinked penalty name e v = record {
    traceable = λ s n. absurd (s refl);
    uncited = λ s. refl;
    confirmed = λ z a. cc;
  }

  review_of-ne-rejected :
      (v : Verdict) (name : String) (final : Option F)
      → (review_of fl fz v ctx name final).0 ≢ rejected
  unfolding review_of review_value review_absence
  review_of-ne-rejected accept_null name final = ground arith
  review_of-ne-rejected accept name none = ground arith
  review_of-ne-rejected reject name none = ground arith
  review_of-ne-rejected accept name (some c) = ground arith
  review_of-ne-rejected reject name (some c) = ground arith

  review_value-confirmed :
      (name : String) (final : Option F)
      → is_member name ctx.zero_tolerance ≡ true
      → (review_value fl fz ctx name final).0 ≡ auto
      → (c : F) × (final ≡ some c) × Le fl (threshold_for ctx.settings name) c
  unfolding review_value
  review_value-confirmed name none z a = absurd (ground arith)
  review_value-confirmed name (some c) z a = (c, refl, ground arith)

  -- The verdict of the gate on a field that was returned.
  abbrev pub GateSays : Emitted F → FieldVerdict F → Type 0
  GateSays e v =
      validate_field fl fz e.value e.source_element_ids ctx.supplied_elements
        ctx.settings.grounding_min_ratio
      ≡ some v

  not_null_of_accept :
      (e : Emitted F) (v : FieldVerdict F)
      → GateSays e v
      → v.verdict ≡ accept
      → is_null e.value ≡ false
  not_null_of_accept e v says a = (accept_sound fl fz _ _ _ _ v says a).not_null

  accept_of_not_null :
      (e : Emitted F) (v : FieldVerdict F)
      → GateSays e v
      → v.verdict ≢ reject
      → is_null e.value ≡ false
      → v.verdict ≡ accept
  accept_of_not_null e v says r present = by_verdict (v.verdict) refl
    where
      by_verdict : (w : Verdict) → v.verdict ≡ w → v.verdict ≡ accept
      by_verdict accept p = p
      by_verdict accept_null p = let (null, _) = (accept_null_iff fl fz _ _ _ _ v says).0 p in cc
      by_verdict reject p = absurd (r p)

  review_of-accept :
      (v : Verdict) (name : String) (final : Option F)
      → v ≡ accept
      → review_of fl fz v ctx name final ≡ review_value fl fz ctx name final
  unfolding review_of
  review_of-accept v name final e = rw e

  review_of-absence :
      (v : Verdict) (name : String) (final : Option F)
      → v ≡ accept_null
      → is_member name ctx.zero_tolerance ≡ true
      → (review_of fl fz v ctx name final).0 ≢ auto
  unfolding review_of review_absence
  review_of-absence v name final e z = ground arith

  accepted-IsLinked :
      (penalty : F) (name : String) (e : Emitted F) (v : FieldVerdict F)
      → GateSays e v
      → v.verdict ≢ reject
      → IsLinked (accepted_field fl fz ctx penalty name e v)
  unfolding accepted_field
  accepted-IsLinked penalty name e v says r = record {
    traceable = λ s n. accept_sound fl fz _ _ _ _ v says (accept_of_not_null e v says r n);
    uncited = λ s. absurd (review_of-ne-rejected v.verdict name _ s);
    confirmed = λ z a. by_verdict (v.verdict) refl z a;
  }
    where
      by_verdict :
          (w : Verdict)
          → v.verdict ≡ w
          → is_member name ctx.zero_tolerance ≡ true
          → (accepted_field fl fz ctx penalty name e v).review_state ≡ auto
          → (is_null e.value ≡ false)
            × ((c : F) × ((accepted_field fl fz ctx penalty name e v).final_confidence ≡ some c)
                × Le fl (threshold_for ctx.settings name) c)
      by_verdict accept p z a = (
        not_null_of_accept e v says p,
        review_value-confirmed name _ z (rw (review_of-accept v.verdict name _ p) at a),
      )
      by_verdict accept_null p z a = absurd (review_of-absence v.verdict name _ p z a)
      by_verdict reject p z a = absurd (r p)

  pub link_verdict-IsLinked :
      (penalty : F) (name : String) (e : Emitted F) (stats : LinkStats) (v : FieldVerdict F)
      → GateSays e v
      → IsLinked (link_verdict fl fz ctx penalty name e stats v).0
  unfolding link_verdict
  link_verdict-IsLinked penalty name e stats v says = by_verdict (v.verdict) refl
    where
      by_verdict :
          (w : Verdict) → v.verdict ≡ w → IsLinked (link_verdict fl fz ctx penalty name e stats v).0
      by_verdict reject p = rw (p, link_verdict) (refused-IsLinked penalty name e v)
      by_verdict accept p = rw (p, link_verdict) (accepted-IsLinked penalty name e v says (λ r. cc))
      by_verdict accept_null p =
          rw (p, link_verdict) (accepted-IsLinked penalty name e v says (λ r. cc))
