-- ===== src/Pricing/Line.antt =====
-- The pricing of one line (resolve_cost to price_line of backend/api/quotes/pricing_ops.py), with
-- the columns of QuoteLine that it reads or writes. The date is that of the cache. `none` as the
-- result of `price_line` is a PricingError. A cost source that is not in the enumeration is `none`.
use cbc_new.Prelude.{
  ℕ, zero, ◌+◌, ◌*◌, ◌-◌, String, Bool, true, false, not, ◌&&◌, Option, none, some, List, [], ◌∷◌,
  if◌then◌else◌, ltb, or_else,
}
use cbc_new.Prelude.Int.{ℤ, pos, ◌+ℤ◌, ◌*ℤ◌, ltb_ℤ, pos_part, neg_part}
use cbc_new.Pricing.Rounding.{round_half_up, Decimal, add_decimal, money, shed}
use cbc_new.Pricing.Reference.{
  MarginBand, VendorMultiplier, ReferenceCache, margin_effective_on, multiplier_effective_on,
}
use text.Mathlib.Text.{◌==◌ as str_eq}

pub data LineGroup : Type 0 where
  door restroom_accessories freight other : LineGroup

pub data CostSource : Type 0 where
  p21_last_po distributor_sheet mfr_list vendor_rfq manual : CostSource

-- The columns of a catalogue item that pricing reads. The list price is in cents.
pub record PricedItem : Type 0 where
  pub vendor : String
  pub list_price : Option ℤ
  pub product_type_band : String
  pub csi_division : Option String

-- A value of the `adders` column: a number, or text that is not one. Values that are not finite are
-- left out.
pub data Adder : Type 0 where
  number : Decimal → Adder
  not_numeric : Adder

pub record QuoteLine : Type 0 where
  pub catalog_item : Option PricedItem
  pub opening_division : Option String
  pub line_group : LineGroup
  pub quantity : ℤ
  pub our_cost : ℤ
  pub margin_pct : ℤ
  pub cost_source : Option CostSource
  pub cost_effective_date : Option ℕ
  pub cost_is_stale : Bool
  pub list_price : Option ℤ
  pub multiplier : Option ℤ
  pub vendor_multiplier : Option VendorMultiplier
  pub multiplier_sheet_version : String
  pub adders : List Adder
  pub total_adders : ℤ
  pub margin_band : Option MarginBand
  pub margin_overridden : Bool
  pub below_floor_flag : Bool
  pub needs_review : Bool
  pub sale_each : ℤ
  pub extended : ℤ
  pub subtotal : ℤ

unfoldable pub is_freight : LineGroup → Bool
is_freight freight = true
is_freight _ = false

-- A line with the cost and the source that are to be put on it.
pub record Sourced : Type 0 where
  pub line : QuoteLine
  pub cost : ℤ
  pub source : CostSource

unfoldable pub lookup_p21_last_po : Option PricedItem → ℕ → Option ℤ
lookup_p21_last_po item as_of = none

-- The last step of the waterfall, where nothing automatic applies.
abbrev pub by_hand : QuoteLine → Sourced
by_hand line = record {
  line = record line { needs_review = true };
  cost = line.our_cost;
  source = manual;
}

-- The list price in cents, times the multiplier of the vendor if there is one.
unfoldable pub from_list : Option VendorMultiplier → ℤ → QuoteLine → Sourced
unfolding shed
from_list (some row) list_price line = record {
  line = record line {
    list_price = some list_price;
    multiplier = some row.multiplier;
    vendor_multiplier = some row;
    multiplier_sheet_version = row.source_sheet_version;
  };
  cost = shed 2 (list_price *ℤ row.multiplier);
  source = mfr_list;
}
from_list none list_price line = record {
  line = record line { list_price = some list_price; needs_review = true };
  cost = shed 0 (list_price *ℤ pos 100);
  source = mfr_list;
}

-- The catalogue part of the waterfall, for the list price of the item.
unfoldable pub source_price : ReferenceCache → PricedItem → Option ℤ → QuoteLine → Sourced
unfolding from_list
source_price cache item none line = by_hand line
source_price cache item (some list_price) line =
    from_list (multiplier_effective_on cache.multipliers cache.as_of item.vendor) list_price line

-- The waterfall, for what the last purchase order gives and the item of the line.
unfoldable pub source_item : ReferenceCache → Option ℤ → Option PricedItem → QuoteLine → Sourced
unfolding source_price
source_item cache (some cost) item line = record { line = line; cost = cost; source = p21_last_po }
source_item cache none none line = by_hand line
source_item cache none (some item) line = source_price cache item item.list_price line

unfoldable pub source_cost : ReferenceCache → QuoteLine → Sourced
unfolding source_item lookup_p21_last_po
source_cost cache line =
    source_item cache (lookup_p21_last_po line.catalog_item cache.as_of) line.catalog_item line

unfoldable pub resolve_cost : ReferenceCache → Bool → QuoteLine → Sourced
resolve_cost cache resource line =
    if not resource && ltb_ℤ (pos 0) line.our_cost
    then record { line = line; cost = line.our_cost; source = or_else line.cost_source manual }
    else source_cost cache line

-- `cost_effective_date < as_of - months * 30 days`
unfoldable pub is_stale : ℕ → ℕ → Option ℕ → Bool
is_stale months as_of none = false
is_stale months as_of (some date) = ltb (date + months * 30) as_of

unfoldable pub mark_staleness : ℕ → ℕ → QuoteLine → QuoteLine
unfolding is_stale
mark_staleness months as_of line = record line {
  cost_is_stale = is_stale months as_of line.cost_effective_date;
}

unfoldable pub total_from : Decimal → List Adder → Decimal
unfolding add_decimal
total_from total [] = total
total_from total (number d ∷ adders) = total_from (add_decimal total d) adders
total_from total (not_numeric ∷ adders) = total_from total adders

-- `money` raises past the 28 digits of the decimal context, which are left out here.
unfoldable pub sum_adders : List Adder → ℤ
unfolding total_from money
sum_adders adders = money (total_from (record { coefficient = pos 0; places = 0 }) adders)

-- The band that `resolve_margin` reads: none for an overridden margin.
unfoldable pub band_for : ReferenceCache → QuoteLine → Option MarginBand
band_for cache line = if line.margin_overridden then none else elim (line.catalog_item) [
  | none ↦ none
  | some item ↦
      if str_eq item.product_type_band ""
      then none
      else margin_effective_on cache.margin_bands cache.as_of item.product_type_band
]

unfoldable pub apply_band : Option MarginBand → QuoteLine → QuoteLine
apply_band none line = line
apply_band (some band) line = record line {
  margin_band = some band;
  margin_pct = band.target_margin_pct;
}

-- The margin is put on the line here.
unfoldable pub resolve_margin : ReferenceCache → QuoteLine → QuoteLine
unfolding apply_band
resolve_margin cache line = apply_band (band_for cache line) line

-- `line.margin_band or …`
unfoldable pub floor_band : ReferenceCache → QuoteLine → Option MarginBand
floor_band cache line = elim (line.margin_band) [
  | some band ↦ some band
  | none ↦ elim (line.catalog_item) [
    | none ↦ none
    | some item ↦ margin_effective_on cache.margin_bands cache.as_of item.product_type_band
  ]
]

unfoldable pub is_below_floor : Option MarginBand → ℤ → Bool
is_below_floor none margin = false
is_below_floor (some band) margin = elim (band.floor_margin_pct) [
  | none ↦ false
  | some floor ↦ ltb_ℤ margin floor
]

unfoldable pub check_floor : ReferenceCache → QuoteLine → QuoteLine
unfolding is_below_floor
check_floor cache line = record line {
  below_floor_flag = is_below_floor (floor_band cache line) line.margin_pct;
}

-- `1 - margin_pct` in ten-thousandths, for a margin below 1.
abbrev pub divisor : ℤ → ℕ
divisor margin = 10_000 + neg_part margin - pos_part margin

abbrev pub base_of : QuoteLine → ℤ
base_of line = line.our_cost +ℤ line.total_adders *ℤ pos 100

unfoldable pub extend : QuoteLine → QuoteLine
extend line =
    let sale_each = round_half_up (base_of line *ℤ pos 10_000) (divisor line.margin_pct) in
    record line { sale_each = sale_each; extended = shed 4 (sale_each *ℤ line.quantity) }

-- `quantity or 1`
abbrev pub quantity_or_one : ℤ → ℤ
quantity_or_one (pos zero) = pos 100
quantity_or_one q = q

unfoldable pub price_freight : QuoteLine → QuoteLine
price_freight line = record line {
  sale_each = line.our_cost;
  extended = shed 4 (line.our_cost *ℤ quantity_or_one line.quantity);
}

-- The cost, its staleness and the adders are put on the line.
unfoldable pub put_cost : ℕ → ReferenceCache → Sourced → QuoteLine
unfolding shed mark_staleness sum_adders
put_cost months cache sourced =
    let costed = record (sourced.line) {
      our_cost = shed 0 sourced.cost;
      cost_source = some sourced.source;
    } in
    let marked = mark_staleness months cache.as_of costed in
    record marked { total_adders = sum_adders marked.adders }

-- The line with its cost, its adders and its margin.
unfoldable pub cost_line : ℕ → ReferenceCache → Bool → QuoteLine → QuoteLine
cost_line months cache resource line =
    resolve_margin cache (put_cost months cache (resolve_cost cache resource line))

-- The save of a figure that is too wide for its column is left out.
unfoldable pub price_line : ℕ → ReferenceCache → Bool → QuoteLine → Option QuoteLine
price_line months cache resource line =
    if is_freight line.line_group
    then some (price_freight line)
    else let costed = cost_line months cache resource line in
      if not (ltb_ℤ costed.margin_pct (pos 10_000))
      then none
      else some (check_floor cache (extend costed))
