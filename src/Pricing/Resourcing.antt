-- ===== src/Pricing/Resourcing.antt =====
-- Sourcing the cost of a line that is already priced (resolve_cost of
-- backend/api/quotes/pricing_ops.py): the waterfall gives what it gave.
use mathlib.Core.Path.{subst}
use cbc_new.Prelude.{
  ℕ, ◌≡◌, ◌≢◌, refl, sym, ◌∙◌, ap, Bool, true, false, not, ◌&&◌, Option, none, some, arith,
  Bool-cases, inl, inr,
}
use cbc_new.Prelude.Int.{ℤ, pos, ltb_ℤ}
use cbc_new.Pricing.Rounding.{shed-zero}
use cbc_new.Pricing.Reference.{
  MarginBand, VendorMultiplier, ReferenceCache, multiplier_effective_on,
}
use cbc_new.Pricing.Line.{
  manual, by_hand, PricedItem, QuoteLine, Sourced, lookup_p21_last_po, from_list, source_price,
  source_item, source_cost, resolve_cost, mark_staleness, band_for, apply_band, floor_band,
  check_floor, extend, put_cost,
}
use cbc_new.Pricing.Margin.{source_item_keeps}

-- The steps after the cost, for a band.
abbrev pub finish : ReferenceCache → Option MarginBand → QuoteLine → QuoteLine
finish cache band line = check_floor cache (extend (apply_band band line))

pub finish_idem :
    (cache : ReferenceCache) (band : Option MarginBand) (line : QuoteLine)
    → finish cache band (finish cache band line) ≡ finish cache band line
unfolding check_floor extend apply_band floor_band
finish_idem cache none line = refl
finish_idem cache (some band) line = refl

module _ (months : ℕ) (cache : ReferenceCache) where
  -- The priced line, from its sourced cost.
  abbrev pub settle : Option MarginBand → Sourced → QuoteLine
  settle b s = finish cache b (put_cost months cache s)

  -- A sourced cost that the waterfall gives again for the priced line.
  abbrev pub again : Option MarginBand → Sourced → Sourced
  again b s = record { line = settle b s; cost = s.cost; source = s.source }

  pub put_cost-again :
      (b : Option MarginBand) (s : Sourced) → settle b s ≡ put_cost months cache (again b s)
  unfolding put_cost mark_staleness check_floor extend apply_band
  put_cost-again none s = refl
  put_cost-again (some b) s = refl

  from_list-again :
      (b : Option MarginBand) (row : Option VendorMultiplier) (price : ℤ) (line : QuoteLine)
      → let s = from_list row price line in from_list row price (settle b s) ≡ again b s
  unfolding from_list put_cost mark_staleness check_floor extend apply_band
  from_list-again none none price line = refl
  from_list-again none (some row) price line = refl
  from_list-again (some b) none price line = refl
  from_list-again (some b) (some row) price line = refl

  by_hand-again :
      (b : Option MarginBand) (line : QuoteLine)
      → let s = by_hand line in by_hand (settle b s) ≡ again b s
  unfolding put_cost mark_staleness check_floor extend apply_band
  by_hand-again none line =
      ap (λ c. record { line = settle none (by_hand line); cost = c; source = manual })
        (shed-zero line.our_cost)
  by_hand-again (some b) line =
      ap (λ c. record { line = settle (some b) (by_hand line); cost = c; source = manual })
        (shed-zero line.our_cost)

  source_price-again :
      (b : Option MarginBand) (item : PricedItem) (price : Option ℤ) (line : QuoteLine)
      → let s = source_price cache item price line in
        source_price cache item price (settle b s) ≡ again b s
  unfolding source_price
  source_price-again b item none line = by_hand-again b line
  source_price-again b item (some price) line =
      from_list-again b (multiplier_effective_on cache.multipliers cache.as_of item.vendor) price
        line

  source_item-again :
      (b : Option MarginBand) (item : Option PricedItem) (line : QuoteLine)
      → let s = source_item cache none item line in
        source_item cache none item (settle b s) ≡ again b s
  unfolding source_item
  source_item-again b none line = by_hand-again b line
  source_item-again b (some item) line = source_price-again b item item.list_price line

  -- What the priced line has of the sourced cost.
  pub record IsPut (b : Option MarginBand) (s : Sourced) : Type 0 where
    pub cost : (settle b s).our_cost ≡ s.cost
    pub source : (settle b s).cost_source ≡ some s.source
    pub item : (settle b s).catalog_item ≡ s.line.catalog_item
    pub group : (settle b s).line_group ≡ s.line.line_group
    pub banded : band_for cache (settle b s) ≡ band_for cache (put_cost months cache s)

  pub settle-IsPut : (b : Option MarginBand) (s : Sourced) → IsPut b s
  unfolding put_cost mark_staleness check_floor extend apply_band band_for
  settle-IsPut none s = record {
    cost = shed-zero s.cost;
    source = refl;
    item = refl;
    group = refl;
    banded = refl;
  }
  settle-IsPut (some b) s = record {
    cost = shed-zero s.cost;
    source = refl;
    item = refl;
    group = refl;
    banded = refl;
  }

  -- A positive cost is kept.
  kept_again :
      (b : Option MarginBand) (s : Sourced)
      → ltb_ℤ (pos 0) (settle b s).our_cost ≡ true
      → resolve_cost cache false (settle b s) ≡ again b s
  unfolding resolve_cost
  kept_again b s positive =
      let settled = settle-IsPut b s in rw (positive, settled.source, settled.cost) refl

  -- The waterfall runs again for a cost that is not positive.
  sourced_again :
      (b : Option MarginBand) (line : QuoteLine)
      → let s = source_cost cache line in
        ltb_ℤ (pos 0) (settle b s).our_cost ≡ false
        → resolve_cost cache false (settle b s) ≡ again b s
  unfolding resolve_cost source_cost lookup_p21_last_po
  sourced_again b line not_positive =
      let s = source_item cache none line.catalog_item line in
      let same : (settle b s).catalog_item ≡ line.catalog_item =
        (settle-IsPut b s).item ∙ (source_item_keeps cache none line.catalog_item line).item in
      let there : source_item cache none (settle b s).catalog_item (settle b s) ≡ again b s =
        subst (λ i. source_item cache none i (settle b s) ≡ again b s) (sym same)
          (source_item-again b line.catalog_item line) in
      rw not_positive there

  source_cost_resolved :
      (resource : Bool) (line : QuoteLine)
      → (not resource && ltb_ℤ (pos 0) line.our_cost) ≡ false
      → source_cost cache line ≡ resolve_cost cache resource line
  unfolding resolve_cost
  source_cost_resolved resource line sourced = rw sourced

  kept_cost :
      (resource : Bool) (line : QuoteLine)
      → (not resource && ltb_ℤ (pos 0) line.our_cost) ≡ true
      → (resolve_cost cache resource line).cost ≡ line.our_cost
  unfolding resolve_cost
  kept_cost resource line kept = rw kept refl

  kept_positive :
      (b : Option MarginBand) (resource : Bool) (line : QuoteLine)
      → (not resource && ltb_ℤ (pos 0) line.our_cost) ≡ true
      → let s = resolve_cost cache resource line in ltb_ℤ (pos 0) (settle b s).our_cost ≢ false
  kept_positive b resource line kept not_positive =
      let s = resolve_cost cache resource line in
      let own : s.cost ≡ line.our_cost = kept_cost resource line kept in
      let cost = (settle-IsPut b s).cost ∙ own in
      let negative : ltb_ℤ (pos 0) line.our_cost ≡ false = rw cost at not_positive in ground arith

  from_waterfall :
      (b : Option MarginBand) (resource : Bool) (line : QuoteLine)
      → let s = resolve_cost cache resource line in
        ltb_ℤ (pos 0) (settle b s).our_cost ≡ false
        → resolve_cost cache false (settle b s) ≡ again b s
  from_waterfall b resource line not_positive =
      elim (Bool-cases (not resource && ltb_ℤ (pos 0) line.our_cost)) [
        | inl kept ↦ absurd (kept_positive b resource line kept not_positive)
        | inr sourced ↦
            let same : source_cost cache line ≡ resolve_cost cache resource line =
              source_cost_resolved resource line sourced in
            subst
              (λ s.
                ltb_ℤ (pos 0) (settle b s).our_cost ≡ false
                → resolve_cost cache false (settle b s) ≡ again b s)
              same (sourced_again b line) not_positive
      ]

  pub resolve_cost-again :
      (b : Option MarginBand) (resource : Bool) (line : QuoteLine)
      → let s = resolve_cost cache resource line in
        resolve_cost cache false (settle b s) ≡ again b s
  resolve_cost-again b resource line =
      let s = resolve_cost cache resource line in
      elim (Bool-cases (ltb_ℤ (pos 0) (settle b s).our_cost)) [
        | inl positive ↦ kept_again b s positive
        | inr not_positive ↦ from_waterfall b resource line not_positive
      ]
