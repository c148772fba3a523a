-- ===== src/Pricing/Tests.antt =====
-- Runs of the pricing engine, and its theorems at inputs.

use cbc_new.Prelude.{◌≡◌, refl, true, false, none, some, List, ◌∷◌, [], or_else}
use cbc_new.Prelude.Text.{codes, strip, to_upper, is_listed, drop_space}
use cbc_new.Prelude.Dict.{lookup, insert}
use cbc_new.Prelude.Int.{pos, ◌+ℤ◌, ◌*ℤ◌}
use cbc_new.Pricing.Rounding.{round_half_up, half_up, add_decimal, money, shed, IsNearest}
use cbc_new.Pricing.Reference.{
  MarginBand, VendorMultiplier, TaxRate, ReferenceCache, latest, effective_on, IsInForce,
  effective_on-IsInForce, margin_effective_on, multiplier_effective_on, tax_effective_on,
}
use cbc_new.Pricing.Line.{
  door, freight, manual, PricedItem, number, not_numeric, QuoteLine, is_freight, lookup_p21_last_po,
  from_list, source_price, source_item, source_cost, resolve_cost, is_stale, mark_staleness,
  total_from, sum_adders, band_for, apply_band, resolve_margin, floor_band, is_below_floor,
  check_floor, extend, price_freight, put_cost, cost_line, price_line,
}
use cbc_new.Pricing.Margin.{IsQuoted, price_line-IsQuoted}
use cbc_new.Pricing.Repricing.{price_line_again}
use cbc_new.Pricing.Reassembly.{assemble_quote_again}
use cbc_new.Pricing.Assembly.{
  Quote, named_or, subtotal_key, price_lines, subtotal_of, tally, put_subtotal, sum_values, tax_on,
  total_quote, assemble_quote,
}
use cbc_new.Pricing.Totals.{goods_total}
use cbc_new.Pricing.Assembled.{
  IsAddedUp, assemble_quote-IsAddedUp, tax-IsNearest, HasUnpriceable, assembled-priceable,
}

runs : Unit {0}
unfolding half_up round_half_up add_decimal money shed latest effective_on margin_effective_on
    multiplier_effective_on tax_effective_on is_freight lookup_p21_last_po from_list source_price
    source_item source_cost resolve_cost is_stale mark_staleness total_from sum_adders band_for
    apply_band resolve_margin floor_band is_below_floor check_floor extend price_freight put_cost
    cost_line price_line named_or subtotal_key price_lines subtotal_of tally put_subtotal sum_values
    tax_on total_quote assemble_quote goods_total lookup insert ◌+ℤ◌ ◌*ℤ◌ strip drop_space to_upper
    is_listed
runs = tt

abbrev band : MarginBand
band = record {
  product_type_band = "HM";
  target_margin_pct = pos 2500;
  floor_margin_pct = some (pos 3000);
  effective_date = 100;
}

abbrev older_band : MarginBand
older_band = record band { target_margin_pct = pos 1000; effective_date = 50 }

abbrev bands : List MarginBand
bands = older_band ∷ band ∷ record band { effective_date = 900 } ∷ []

abbrev hager : VendorMultiplier
hager = record {
  vendor_name = "Hager";
  multiplier = pos 2900;
  source_sheet_version = "2026-1";
  effective_date = 10;
}

abbrev ohio : TaxRate
ohio = record { jurisdiction = codes "OH"; rate_pct = pos 800; effective_date = 10 }

abbrev cache : ReferenceCache
cache = record {
  as_of = 500;
  margin_bands = bands;
  multipliers = hager ∷ [];
  tax_rates = ohio ∷ [];
}

abbrev item : PricedItem
item = record {
  vendor = "Hager";
  list_price = some (pos 10_000);
  product_type_band = "HM";
  csi_division = some "08";
}

-- Two of an item of list price 100.00, with an adder of 1.50.
abbrev hinge : QuoteLine
hinge = record {
  catalog_item = some item;
  opening_division = none;
  line_group = door;
  quantity = pos 200;
  our_cost = pos 0;
  margin_pct = pos 0;
  cost_source = some manual;
  cost_effective_date = some 100;
  cost_is_stale = false;
  list_price = none;
  multiplier = none;
  vendor_multiplier = none;
  multiplier_sheet_version = "";
  adders = number (record { coefficient = pos 15; places = 1 }) ∷ not_numeric ∷ [];
  total_adders = pos 0;
  margin_band = none;
  margin_overridden = false;
  below_floor_flag = false;
  needs_review = false;
  sale_each = pos 0;
  extended = pos 0;
  subtotal = pos 0;
}

abbrev truck : QuoteLine
truck = record hinge { catalog_item = none; line_group = freight; our_cost = pos 500_000 }

abbrev hopeless : QuoteLine
hopeless = record hinge { margin_overridden = true; margin_pct = pos 10_000 }

-- (29.00 + 1.50) / 0.75 = 40.6667, and twice that is 81.33.
abbrev sold : QuoteLine
sold = or_else (price_line 7 cache false hinge) hinge

sold_run :
    (sold.sale_each ≡ pos 406_667) × (sold.extended ≡ pos 8133) × (sold.below_floor_flag ≡ true)
unfolding runs
sold_run = (refl, refl, refl)

abbrev quote : Quote
quote = record {
  freight_amount = some (pos 1000);
  tax_jurisdiction = some (codes " oh ");
  subtotal_sale = pos 0;
  tax_rate_applied = none;
  tax_amount = pos 0;
  grand_total = pos 0;
}

abbrev in_texas : Quote
in_texas = record quote { tax_jurisdiction = some (codes "TX") }

abbrev lines : List QuoteLine
lines = hinge ∷ truck ∷ hinge ∷ []

abbrev assembled : Quote × List QuoteLine
assembled = or_else (assemble_quote 7 cache quote lines) (quote, [])

abbrev assembled_in_texas : Quote × List QuoteLine
assembled_in_texas = or_else (assemble_quote 7 cache in_texas lines) (quote, [])

-- 162.66 and freight of 10.00 are taxed with 13.81.
assembled_run : assembled.0.grand_total ≡ pos 18_647
unfolding runs
assembled_run = refl

effective_on-IsInForce_example :
    IsInForce (λ (r : MarginBand). r.effective_date) (λ r. true) 500 bands band
unfolding runs
effective_on-IsInForce_example =
    effective_on-IsInForce (λ (r : MarginBand). r.effective_date) (λ r. true) 500 bands band refl

price_line-IsQuoted_example : IsQuoted cache sold
unfolding runs
price_line-IsQuoted_example = price_line-IsQuoted 7 cache false hinge sold refl refl

assemble_quote-IsAddedUp_example : IsAddedUp (assembled.0) (assembled.1)
unfolding runs
assemble_quote-IsAddedUp_example =
    assemble_quote-IsAddedUp 7 cache quote lines (assembled.0) (assembled.1) refl

tax-IsNearest_example :
    (assembled.0.tax_rate_applied ≡ some ohio.rate_pct)
    × IsNearest
        (assembled.0.tax_amount)
        ((assembled.0.subtotal_sale +ℤ or_else (assembled.0.freight_amount) (pos 0))
          *ℤ ohio.rate_pct)
        10_000
unfolding runs
tax-IsNearest_example = tax-IsNearest 7 cache quote lines (assembled.0) (assembled.1) refl ohio refl

assembled-priceable_example : ¬ HasUnpriceable cache lines
unfolding runs
assembled-priceable_example =
    assembled-priceable 7 cache quote lines (assembled.0, assembled.1) refl

price_line_again_example : price_line 7 cache false sold ≡ some sold
unfolding runs
price_line_again_example = price_line_again 7 cache true hinge sold refl

assemble_quote_again_example :
    assemble_quote 7 cache (assembled.0) (assembled.1) ≡ some (assembled.0, assembled.1)
unfolding runs
assemble_quote_again_example =
    assemble_quote_again 7 cache quote (assembled.0) lines (assembled.1) refl
