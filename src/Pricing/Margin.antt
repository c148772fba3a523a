-- ===== src/Pricing/Margin.antt =====
-- What a priced line carries, and when it cannot be priced (price_line of
-- backend/api/quotes/pricing_ops.py).
use cbc_new.Prelude.{
  ℕ, ◌+◌, ◌-◌, ◌<◌, ◌≡◌, refl, ◌↔◌, Bool, true, false, not, ◌&&◌, Option, none, some, arith,
  Bool-cases, inl, inr,
}
use cbc_new.Prelude.Int.{ℤ, pos, negsuc, ◌+ℤ◌, ◌*ℤ◌, ◌≤ℤ◌, ltb_ℤ, pos_part, neg_part}
use cbc_new.Pricing.Rounding.{shed, IsNearest, round_half_up-IsNearest}
use cbc_new.Pricing.Reference.{
  MarginBand, VendorMultiplier, ReferenceCache, multiplier_effective_on,
}
use cbc_new.Pricing.Line.{
  QuoteLine, is_freight, PricedItem, Sourced, lookup_p21_last_po, from_list, source_price,
  source_item, source_cost, apply_band, put_cost, resolve_cost, band_for, resolve_margin,
  floor_band, is_below_floor, check_floor, divisor, extend, cost_line, price_line,
}

divisor_pos : (m : ℤ) → ltb_ℤ m (pos 10_000) ≡ true → 0 < divisor m
divisor_pos (pos n) h = ground arith
divisor_pos (negsuc n) h = omega arith

-- The persisted figures of a priced line agree with each other: the price of one unit is the
-- nearest ten-thousandth to the cost with the adders divided by one minus the margin, and the
-- extended price the nearest cent to that price times the quantity.
pub record IsQuoted (cache : ReferenceCache) (line : QuoteLine) : Type 0 where
  pub below_one : ltb_ℤ line.margin_pct (pos 10_000) ≡ true
  pub sale :
      IsNearest line.sale_each
        ((line.our_cost +ℤ line.total_adders *ℤ pos 100) *ℤ pos 10_000)
        (10_000 + neg_part line.margin_pct - pos_part line.margin_pct)
  pub whole : IsNearest line.extended (line.sale_each *ℤ line.quantity) 10_000
  pub floored : line.below_floor_flag ≡ is_below_floor (floor_band cache line) line.margin_pct

extend-IsQuoted :
    (cache : ReferenceCache) (line : QuoteLine)
    → ltb_ℤ line.margin_pct (pos 10_000) ≡ true
    → IsQuoted cache (check_floor cache (extend line))
unfolding extend check_floor floor_band shed
extend-IsQuoted cache line h = record {
  below_one = h;
  sale = round_half_up-IsNearest _ _ (divisor_pos line.margin_pct h);
  whole = round_half_up-IsNearest _ 10_000 (omega arith);
  floored = refl;
}

-- The figures that a line which is not freight is saved with agree with each other, whatever its
-- cost came from.
pub price_line-IsQuoted :
    (months : ℕ) (cache : ReferenceCache) (resource : Bool) (line p : QuoteLine)
    → is_freight line.line_group ≡ false
    → price_line months cache resource line ≡ some p
    → IsQuoted cache p
unfolding price_line
price_line-IsQuoted months cache resource line p goods e =
    let costed = cost_line months cache resource line in
    elim (Bool-cases (ltb_ℤ costed.margin_pct (pos 10_000))) [
      | inl below ↦
          let same : check_floor cache (extend costed) ≡ p = ground (arith, goods, below) in
          rw (← same) (extend-IsQuoted cache costed below)
      | inr not_below ↦ absurd (ground (arith, goods, not_below))
    ]

-- The margin that a line gets.
abbrev pub applied_margin : Option MarginBand → ℤ → ℤ
applied_margin none own = own
applied_margin (some band) own = band.target_margin_pct

-- What decides the margin of a line, and its group, are the same for both.
pub record KeepsMargin (line line' : QuoteLine) : Type 0 where
  pub own : line'.margin_pct ≡ line.margin_pct
  pub overridden : line'.margin_overridden ≡ line.margin_overridden
  pub item : line'.catalog_item ≡ line.catalog_item
  pub group : line'.line_group ≡ line.line_group

abbrev kept : (line : QuoteLine) → KeepsMargin line line
kept line = record { own = refl; overridden = refl; item = refl; group = refl }

from_list_keeps :
    (row : Option VendorMultiplier) (price : ℤ) (line : QuoteLine)
    → KeepsMargin line (from_list row price line).line
unfolding from_list
from_list_keeps none price line = record {
  own = refl;
  overridden = refl;
  item = refl;
  group = refl;
}
from_list_keeps (some row) price line = record {
  own = refl;
  overridden = refl;
  item = refl;
  group = refl;
}

source_price_keeps :
    (cache : ReferenceCache) (item : PricedItem) (price : Option ℤ) (line : QuoteLine)
    → KeepsMargin line (source_price cache item price line).line
unfolding source_price
source_price_keeps cache item none line = record {
  own = refl;
  overridden = refl;
  item = refl;
  group = refl;
}
source_price_keeps cache item (some price) line =
    from_list_keeps (multiplier_effective_on cache.multipliers cache.as_of item.vendor) price line

pub source_item_keeps :
    (cache : ReferenceCache) (cost : Option ℤ) (item : Option PricedItem) (line : QuoteLine)
    → KeepsMargin line (source_item cache cost item line).line
unfolding source_item
source_item_keeps cache (some cost) item line = kept line
source_item_keeps cache none none line = record {
  own = refl;
  overridden = refl;
  item = refl;
  group = refl;
}
source_item_keeps cache none (some item) line = source_price_keeps cache item item.list_price line

pub resolve_cost_keeps :
    (cache : ReferenceCache) (resource : Bool) (line : QuoteLine)
    → KeepsMargin line (resolve_cost cache resource line).line
unfolding resolve_cost source_cost
resolve_cost_keeps cache resource line =
    elim (Bool-cases (not resource && ltb_ℤ (pos 0) line.our_cost)) [
      | inl has_cost ↦ rw has_cost (kept line)
      | inr sourced ↦ rw sourced (
          source_item_keeps cache (lookup_p21_last_po line.catalog_item cache.as_of)
            line.catalog_item line)
    ]

apply_band_applied :
    (band : Option MarginBand) (line : QuoteLine)
    → (apply_band band line).margin_pct ≡ applied_margin band line.margin_pct
unfolding apply_band
apply_band_applied none line = refl
apply_band_applied (some band) line = refl

put_cost_band :
    (months : ℕ) (cache : ReferenceCache) (line : QuoteLine) (s : Sourced)
    → KeepsMargin line s.line
    → band_for cache (put_cost months cache s) ≡ band_for cache line
unfolding put_cost band_for
put_cost_band months cache line s k = rw (k.overridden, k.item)

put_cost_margin :
    (months : ℕ) (cache : ReferenceCache) (s : Sourced)
    → (put_cost months cache s).margin_pct ≡ s.line.margin_pct
unfolding put_cost
put_cost_margin months cache s = refl

cost_line_applied :
    (months : ℕ) (cache : ReferenceCache) (resource : Bool) (line : QuoteLine)
    → (cost_line months cache resource line).margin_pct
      ≡ applied_margin (band_for cache line) line.margin_pct
unfolding cost_line resolve_margin
cost_line_applied months cache resource line =
    let s = resolve_cost cache resource line in
    let k = resolve_cost_keeps cache resource line in
    rw (
      apply_band_applied (band_for cache (put_cost months cache s)) (put_cost months cache s),
      put_cost_band months cache line s k,
      put_cost_margin months cache s,
      k.own,
    )

-- In exact arithmetic, pricing a line fails exactly if it is not freight and the margin that applies to it, its own one
-- where that was set by hand or no band is in force, and else the target of the band, is 1 or more.
pub price_line_fails_iff :
    (months : ℕ) (cache : ReferenceCache) (resource : Bool) (line : QuoteLine)
    → (price_line months cache resource line ≡ none) ↔ (
        (is_freight line.line_group ≡ false)
        × (pos 10_000 ≤ℤ applied_margin (band_for cache line) line.margin_pct))
unfolding price_line
price_line_fails_iff months cache resource line =
    let applied = cost_line_applied months cache resource line in
    rw applied (λ e. ground arith, λ (goods, high). ground arith)
