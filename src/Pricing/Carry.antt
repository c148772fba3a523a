-- ===== src/Pricing/Carry.antt =====
-- Pricing does not look at the subtotal that a line carries (price_line of
-- backend/api/quotes/pricing_ops.py).

use cbc_new.Prelude.{
  ℕ, ◌≡◌, refl, ◌∙◌, ap, Bool, not, ◌&&◌, Option, none, some, arith, Bool-cases, inl, inr,
}
use cbc_new.Prelude.Int.{ℤ, pos, ltb_ℤ}
use cbc_new.Pricing.Reference.{
  MarginBand, VendorMultiplier, ReferenceCache, multiplier_effective_on,
}
use cbc_new.Pricing.Line.{
  PricedItem, QuoteLine, is_freight, Sourced, lookup_p21_last_po, from_list, source_price,
  source_item, source_cost, resolve_cost, mark_staleness, band_for, apply_band, resolve_margin,
  floor_band, check_floor, extend, price_freight, put_cost, cost_line, price_line,
}

module _ (x : ℤ) where
  abbrev pub carry : QuoteLine → QuoteLine
  carry line = record line { subtotal = x }

  abbrev carry_sourced : Sourced → Sourced
  carry_sourced s = record s { line = carry s.line }

  carry-from_list :
      (row : Option VendorMultiplier) (price : ℤ) (line : QuoteLine)
      → from_list row price (carry line) ≡ carry_sourced (from_list row price line)
  unfolding from_list
  carry-from_list none price line = refl
  carry-from_list (some row) price line = refl

  module _ (cache : ReferenceCache) where
    carry-source_price :
        (item : PricedItem) (price : Option ℤ) (line : QuoteLine)
        → source_price cache item price (carry line)
          ≡ carry_sourced (source_price cache item price line)
    unfolding source_price
    carry-source_price item none line = refl
    carry-source_price item (some price) line =
        carry-from_list (multiplier_effective_on cache.multipliers cache.as_of item.vendor) price
          line

    carry-source_item :
        (cost : Option ℤ) (item : Option PricedItem) (line : QuoteLine)
        → source_item cache cost item (carry line)
          ≡ carry_sourced (source_item cache cost item line)
    unfolding source_item
    carry-source_item (some cost) item line = refl
    carry-source_item none none line = refl
    carry-source_item none (some item) line = carry-source_price item item.list_price line

    carry-resolve_cost :
        (resource : Bool) (line : QuoteLine)
        → resolve_cost cache resource (carry line)
          ≡ carry_sourced (resolve_cost cache resource line)
    unfolding resolve_cost source_cost
    carry-resolve_cost resource line =
        elim (Bool-cases (not resource && ltb_ℤ (pos 0) line.our_cost)) [
          | inl kept ↦ rw kept refl
          | inr sourced ↦ rw sourced (
              carry-source_item (lookup_p21_last_po line.catalog_item cache.as_of) line.catalog_item
                line)
        ]

    carry-apply_band :
        (band : Option MarginBand) (line : QuoteLine)
        → apply_band band (carry line) ≡ carry (apply_band band line)
    unfolding apply_band
    carry-apply_band none line = refl
    carry-apply_band (some band) line = refl

    carry-resolve_margin :
        (line : QuoteLine) → resolve_margin cache (carry line) ≡ carry (resolve_margin cache line)
    unfolding resolve_margin band_for
    carry-resolve_margin line = carry-apply_band (band_for cache line) line

    carry-put_cost :
        (months : ℕ) (s : Sourced)
        → put_cost months cache (carry_sourced s) ≡ carry (put_cost months cache s)
    unfolding put_cost mark_staleness
    carry-put_cost months s = refl

    carry-cost_line :
        (months : ℕ) (resource : Bool) (line : QuoteLine)
        → cost_line months cache resource (carry line)
          ≡ carry (cost_line months cache resource line)
    unfolding cost_line
    carry-cost_line months resource line =
        let s = resolve_cost cache resource line in
        ap (λ t. resolve_margin cache (put_cost months cache t)) (carry-resolve_cost resource line)
        ∙ (ap (λ q. resolve_margin cache q) (carry-put_cost months s)
            ∙ carry-resolve_margin (put_cost months cache s))

    carry-check_floor :
        (line : QuoteLine)
        → check_floor cache (extend (carry line)) ≡ carry (check_floor cache (extend line))
    unfolding check_floor extend floor_band
    carry-check_floor line = refl

    -- The subtotal that a line carries does not matter to its pricing.
    pub carry-price_line :
        (months : ℕ) (resource : Bool) (line p : QuoteLine)
        → price_line months cache resource line ≡ some p
        → price_line months cache resource (carry line) ≡ some (carry p)
    unfolding price_line price_freight
    carry-price_line months resource line p e =
        let costed = cost_line months cache resource line in
        let same = carry-cost_line months resource line in
        elim (Bool-cases (is_freight line.line_group)) [
          | inl freight ↦
              let priced : price_freight line ≡ p = ground (arith, freight) in
              rw freight (ap (λ q. some (carry q)) priced)
          | inr goods ↦ elim (Bool-cases (ltb_ℤ costed.margin_pct (pos 10_000))) [
            | inr not_below ↦ absurd (ground (arith, goods, not_below))
            | inl below ↦
                let priced : check_floor cache (extend costed) ≡ p = ground (arith, goods, below) in
                rw (goods, same, below)
                  (ap some (carry-check_floor costed) ∙ ap (λ q. some (carry q)) priced)
          ]
        ]
