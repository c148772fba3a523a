-- ===== src/Gate/Confidence.antt =====
-- The composite confidence of a field (compose and completeness_penalty of
-- backend/pipeline/llm/validators/gate.py). `None` confidences are `none`.
use cbc_new.Prelude.{ℕ, ◌≡◌, Option, none, some, List, [], ◌∷◌, arith, All, if◌then◌else◌, ◌==◌}
use cbc_new.Prelude.Float.{Float, Le, IsOrdered, min, max, min_of, min-le_left, min-le_right}

pub record Confidence (F : Type 0) : Type 0 where
  pub ocr : Option F
  pub llm : Option F
  pub completeness_penalty : F
  pub final : Option F

-- `[c for c in element_confidences if c is not None]`
unfoldable pub measured {ℓ} : {A : Type ℓ} → List (Option A) → List A
measured [] = []
measured (none ∷ cs) = measured cs
measured (some c ∷ cs) = c ∷ measured cs

module _ (fl : Float) where
  open fl use {F, decimal, mul, ratio}

  unfoldable pub completeness_penalty : ℕ → ℕ → F
  unfolding min max
  completeness_penalty populated expected =
      if expected == 0
      then decimal 10_000
      else max fl (decimal 0) (min fl (decimal 10_000) (ratio populated expected))

  unfoldable pub lowest : List F → Option F
  unfolding min_of
  lowest [] = none
  lowest (c ∷ cs) = some (min_of fl c cs)

  unfoldable pub final_of : Option F → Option F → F → Option F
  unfolding min
  final_of none none penalty = none
  final_of none (some llm) penalty = some (mul llm penalty)
  final_of (some ocr) none penalty = some (mul ocr penalty)
  final_of (some ocr) (some llm) penalty = some (mul (min fl ocr llm) penalty)

  unfoldable pub compose : List (Option F) → Option F → F → Confidence F
  unfolding measured lowest final_of
  compose element_confidences llm penalty =
      let ocr = lowest (measured element_confidences) in
      record {
        ocr = ocr;
        llm = llm;
        completeness_penalty = penalty;
        final = final_of ocr llm penalty;
      }

module _ (fl : Float) (o : IsOrdered fl) where
  open fl use {F, decimal, mul}

  abbrev pub IsNonneg : Option F → Type 0
  IsNonneg none = Unit
  IsNonneg (some c) = Le fl (decimal 0) c

  -- `f` is at most the confidence, if there is one.
  abbrev pub AtMost : F → Option F → Type 0
  AtMost f none = Unit
  AtMost f (some c) = Le fl f c

  -- For ordered floats the penalty lies between 0 and 1, whatever the two counts are.
  pub completeness_penalty_bounds :
      (populated expected : ℕ)
      → Le fl (decimal 0) (completeness_penalty fl populated expected)
        × Le fl (completeness_penalty fl populated expected) (decimal 10_000)
  unfolding completeness_penalty max
  completeness_penalty_bounds populated expected =
      let share = min fl (decimal 10_000) (fl.ratio populated expected) in
      ground (
        arith,
        o.decimal-le 0 10_000,
        o.le_refl (decimal 10_000),
        o.le_refl (decimal 0),
        o.lt_asymm (decimal 0) share,
        min-le_left fl o (decimal 10_000) (fl.ratio populated expected),
      )

  min_of-le :
      (c : F) (cs : List F) → Le fl (min_of fl c cs) c × All (λ d. Le fl (min_of fl c cs) d) cs
  unfolding min_of
  min_of-le c [] = (o.le_refl c, tt)
  min_of-le c (d ∷ cs) =
      let (first, rest) = min_of-le (min fl c d) cs in
      (
        o.le_trans _ _ _ first (min-le_left fl o c d),
        (o.le_trans _ _ _ first (min-le_right fl o c d), rest),
      )

  min_nonneg :
      (a b : F) → Le fl (decimal 0) a → Le fl (decimal 0) b → Le fl (decimal 0) (min fl a b)
  unfolding min
  min_nonneg a b p q = ground arith

  min_of_nonneg :
      (c : F) (cs : List F)
      → Le fl (decimal 0) c
      → All (λ d. Le fl (decimal 0) d) cs
      → Le fl (decimal 0) (min_of fl c cs)
  unfolding min_of
  min_of_nonneg c [] p q = p
  min_of_nonneg c (d ∷ cs) p q = min_of_nonneg (min fl c d) cs (min_nonneg c d p q.0) q.1

  measured-All :
      (cs : List (Option F)) → All IsNonneg cs → All (λ d. Le fl (decimal 0) d) (measured cs)
  unfolding measured
  measured-All [] h = tt
  measured-All (none ∷ cs) h = measured-All cs h.1
  measured-All (some c ∷ cs) h = (h.0, measured-All cs h.1)

  AtMost-of_measured :
      (f : F) (cs : List (Option F)) → All (λ d. Le fl f d) (measured cs) → All (AtMost f) cs
  unfolding measured
  AtMost-of_measured f [] h = tt
  AtMost-of_measured f (none ∷ cs) h = (tt, AtMost-of_measured f cs h)
  AtMost-of_measured f (some c ∷ cs) h = (h.0, AtMost-of_measured f cs h.1)

  lowest-le : (f : F) (cs : List F) → AtMost f (lowest fl cs) → All (λ d. Le fl f d) cs
  unfolding lowest
  lowest-le f [] h = tt
  lowest-le f (c ∷ cs) h =
      let (first, rest) = min_of-le c cs in (o.le_trans _ _ _ h first, below cs rest)
    where
      below : (ds : List F) → All (λ d. Le fl (min_of fl c cs) d) ds → All (λ d. Le fl f d) ds
      below [] p = tt
      below (d ∷ ds) p = (o.le_trans _ _ _ h p.0, below ds p.1)

  lowest-IsNonneg : (cs : List F) → All (λ d. Le fl (decimal 0) d) cs → IsNonneg (lowest fl cs)
  unfolding lowest
  lowest-IsNonneg [] h = tt
  lowest-IsNonneg (c ∷ cs) h = min_of_nonneg c cs h.0 h.1

  final_of-le :
      (ocr llm : Option F) (penalty f : F)
      → IsNonneg ocr
      → IsNonneg llm
      → Le fl penalty (decimal 10_000)
      → final_of fl ocr llm penalty ≡ some f
      → AtMost f ocr × AtMost f llm
  unfolding final_of
  final_of-le none none penalty f a b p e = (tt, tt)
  final_of-le none (some l) penalty f a b p e = (tt, ground (arith, o.mul-le l penalty b p))
  final_of-le (some c) none penalty f a b p e = (ground (arith, o.mul-le c penalty a p), tt)
  final_of-le (some c) (some l) penalty f a b p e =
      let low = o.mul-le (min fl c l) penalty (min_nonneg c l a b) p in
      (
        ground (arith, o.le_trans (mul (min fl c l) penalty) _ _ low (min-le_left fl o c l)),
        ground (arith, o.le_trans (mul (min fl c l) penalty) _ _ low (min-le_right fl o c l)),
      )

  -- For ordered floats, confidences that are not negative and a penalty of at most 1, the final
  -- confidence exceeds neither the model's own confidence nor the OCR confidence of any cited
  -- element.
  pub compose-le :
      (element_confidences : List (Option F)) (llm : Option F) (penalty f : F)
      → All IsNonneg element_confidences
      → IsNonneg llm
      → Le fl penalty (decimal 10_000)
      → (compose fl element_confidences llm penalty).final ≡ some f
      → All (AtMost f) element_confidences × AtMost f llm
  unfolding compose
  compose-le cs llm penalty f nonneg llm_nonneg p e =
      let (ocr_le, llm_le) =
        final_of-le (lowest fl (measured cs)) llm penalty f
          (lowest-IsNonneg (measured cs) (measured-All cs nonneg)) llm_nonneg p e in
      (AtMost-of_measured f cs (lowest-le f (measured cs) ocr_le), llm_le)
