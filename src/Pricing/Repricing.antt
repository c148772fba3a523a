-- ===== src/Pricing/Repricing.antt =====
-- Pricing a line that is already priced (price_line of backend/api/quotes/pricing_ops.py), as every
-- assembly of its quote does.
use mathlib.Core.Path.{subst}
use cbc_new.Prelude.{
  ℕ, ◌≡◌, refl, sym, ◌∙◌, ap, Bool, true, false, Option, none, some, arith, Bool-cases, inl, inr,
}
use cbc_new.Prelude.Int.{pos, ltb_ℤ}
use cbc_new.Pricing.Reference.{MarginBand, ReferenceCache}
use cbc_new.Pricing.Line.{
  QuoteLine, is_freight, Sourced, resolve_cost, band_for, apply_band, resolve_margin, check_floor,
  extend, price_freight, put_cost, cost_line, price_line,
}
use cbc_new.Pricing.Margin.{resolve_cost_keeps}
use cbc_new.Pricing.Resourcing.{
  finish, settle, finish_idem, put_cost-again, settle-IsPut, resolve_cost-again,
}

module _ (months : ℕ) (cache : ReferenceCache) where
  apply_band_twice :
      (b : Option MarginBand) (s : Sourced)
      → (apply_band b (settle months cache b s)).margin_pct
        ≡ (apply_band b (put_cost months cache s)).margin_pct
  unfolding check_floor extend apply_band
  apply_band_twice none s = refl
  apply_band_twice (some b) s = refl

  -- The costed line of a line that is settled is itself, up to the steps after it.
  settle_again :
      (resource : Bool) (line : QuoteLine)
      → let s = resolve_cost cache resource line in
        let b = band_for cache (put_cost months cache s) in
        check_floor cache (extend (cost_line months cache false (settle months cache b s)))
        ≡ settle months cache b s
  unfolding cost_line resolve_margin
  settle_again resource line =
      let s = resolve_cost cache resource line in
      let b = band_for cache (put_cost months cache s) in
      let costed : put_cost months cache (resolve_cost cache false (settle months cache b s))
          ≡ settle months cache b s =
        ap (λ t. put_cost months cache t) (resolve_cost-again months cache b resource line)
        ∙ sym (put_cost-again months cache b s) in
      let stepped : finish cache (band_for cache (settle months cache b s))
            (settle months cache b s)
          ≡ settle months cache b s =
        subst (λ c. finish cache c (settle months cache b s) ≡ settle months cache b s)
          (sym (settle-IsPut months cache b s).banded)
          (finish_idem cache b (put_cost months cache s)) in
      subst (λ q. finish cache (band_for cache q) q ≡ settle months cache b s) (sym costed) stepped

  margin_again :
      (resource : Bool) (line : QuoteLine)
      → let s = resolve_cost cache resource line in
        let b = band_for cache (put_cost months cache s) in
        (cost_line months cache false (settle months cache b s)).margin_pct
        ≡ (cost_line months cache resource line).margin_pct
  unfolding cost_line resolve_margin
  margin_again resource line =
      let s = resolve_cost cache resource line in
      let b = band_for cache (put_cost months cache s) in
      let costed : put_cost months cache (resolve_cost cache false (settle months cache b s))
          ≡ settle months cache b s =
        ap (λ t. put_cost months cache t) (resolve_cost-again months cache b resource line)
        ∙ sym (put_cost-again months cache b s) in
      let banded =
        subst
          (λ c.
            (apply_band c (settle months cache b s)).margin_pct
            ≡ (apply_band b (put_cost months cache s)).margin_pct)
          (sym (settle-IsPut months cache b s).banded) (apply_band_twice b s) in
      subst
        (λ q.
          (apply_band (band_for cache q) q).margin_pct
          ≡ (apply_band b (put_cost months cache s)).margin_pct)
        (sym costed) banded

  priced_settled :
      (resource : Bool) (line p : QuoteLine)
      → check_floor cache (extend (cost_line months cache resource line)) ≡ p
      → let s = resolve_cost cache resource line in
        settle months cache (band_for cache (put_cost months cache s)) s ≡ p
  unfolding cost_line resolve_margin
  priced_settled resource line p e = e

  goods_settled :
      (resource : Bool) (line : QuoteLine)
      → is_freight line.line_group ≡ false
      → let s = resolve_cost cache resource line in
        is_freight (settle months cache (band_for cache (put_cost months cache s)) s).line_group
        ≡ false
  goods_settled resource line goods =
      let s = resolve_cost cache resource line in
      let b = band_for cache (put_cost months cache s) in
      let same : (settle months cache b s).line_group ≡ line.line_group =
        (settle-IsPut months cache b s).group ∙ (resolve_cost_keeps cache resource line).group in
      ap is_freight same ∙ goods

  price_goods_again :
      (resource : Bool) (line p : QuoteLine)
      → is_freight line.line_group ≡ false
      → price_line months cache resource line ≡ some p
      → price_line months cache false p ≡ some p
  unfolding price_line
  price_goods_again resource line p goods e =
      let s = resolve_cost cache resource line in
      let b = band_for cache (put_cost months cache s) in
      let costed = cost_line months cache resource line in
      elim (Bool-cases (ltb_ℤ costed.margin_pct (pos 10_000))) [
        | inr not_below ↦ absurd (ground (arith, goods, not_below))
        | inl below ↦
            let same : settle months cache b s ≡ p =
              priced_settled resource line p (ground (arith, goods, below)) in
            let group : is_freight (settle months cache b s).line_group ≡ false =
              goods_settled resource line goods in
            let margin : ltb_ℤ (cost_line months cache false (settle months cache b s)).margin_pct
                  (pos 10_000)
                ≡ true =
              rw (margin_again resource line) below in
            subst (λ q. price_line months cache false q ≡ some q) same
              (rw (group, margin) (ap some (settle_again resource line)))
      ]

  price_freight_again :
      (resource : Bool) (line p : QuoteLine)
      → is_freight line.line_group ≡ true
      → price_line months cache resource line ≡ some p
      → price_line months cache false p ≡ some p
  unfolding price_line price_freight
  price_freight_again resource line p freight e =
      let same : price_freight line ≡ p = ground (arith, freight) in
      subst (λ q. price_line months cache false q ≡ some q) same (rw freight refl)

-- A line that has been priced stays as it is when it is priced again with the same tables on the
-- same day and without a new source: neither its cost, its margin, its prices nor its flags move,
-- whether or not the first pricing took its cost from the waterfall.
pub price_line_again :
    (months : ℕ) (cache : ReferenceCache) (resource : Bool) (line p : QuoteLine)
    → price_line months cache resource line ≡ some p
    → price_line months cache false p ≡ some p
price_line_again months cache resource line p e = elim (Bool-cases (is_freight line.line_group)) [
  | inl freight ↦ price_freight_again months cache resource line p freight e
  | inr goods ↦ price_goods_again months cache resource line p goods e
]
