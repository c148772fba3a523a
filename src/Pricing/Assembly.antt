-- ===== src/Pricing/Assembly.antt =====
-- The assembly of a quote (_subtotal_key and assemble_quote of backend/api/quotes/pricing_ops.py).
-- `none` is the PricingError of a line; what a failed assembly has already saved is left out.
use cbc_new.Prelude.{
  ℕ, String, false, Option, none, some, List, [], ◌∷◌, map, if◌then◌else◌, or_else,
}
use cbc_new.Prelude.Text.{Text}
use cbc_new.Prelude.Dict.{Dict, lookup, insert}
use cbc_new.Prelude.Int.{ℤ, pos, ◌+ℤ◌, ◌*ℤ◌}
use cbc_new.Pricing.Rounding.{shed}
use cbc_new.Pricing.Reference.{TaxRate, ReferenceCache, tax_effective_on}
use cbc_new.Pricing.Line.{
  LineGroup, door, restroom_accessories, freight, other, QuoteLine, is_freight, price_line,
}
use text.Mathlib.Text.{◌==◌ as str_eq}

-- The columns of a quote that the assembly reads or writes.
pub record Quote : Type 0 where
  pub freight_amount : Option ℤ
  pub tax_jurisdiction : Option Text
  pub subtotal_sale : ℤ
  pub tax_rate_applied : Option ℤ
  pub tax_amount : ℤ
  pub grand_total : ℤ

abbrev pub group_name : LineGroup → String
group_name door = "DOOR"
group_name restroom_accessories = "RESTROOM_ACCESSORIES"
group_name freight = "FREIGHT"
group_name other = "OTHER"

-- The text, unless it is missing or empty, and else the other one.
unfoldable pub named_or : Option String → String → String
named_or none fallback = fallback
named_or (some s) fallback = if str_eq s "" then fallback else s

unfoldable pub subtotal_key : QuoteLine → String
unfolding named_or
subtotal_key line =
    let own = named_or line.opening_division (group_name line.line_group) in
    elim (line.catalog_item) [ none ↦ own | some item ↦ named_or item.csi_division own ]

unfoldable pub price_lines : ℕ → ReferenceCache → List QuoteLine → Option (List QuoteLine)
price_lines months cache [] = some []
price_lines months cache (line ∷ lines) = elim (price_line months cache false line) [
  | none ↦ none
  | some priced ↦ elim (price_lines months cache lines) [
    | none ↦ none
    | some rest ↦ some (priced ∷ rest)
  ]
]

-- `subtotals.get(key, Decimal("0"))`
unfoldable pub subtotal_of : String → Dict ℤ → ℤ
subtotal_of key subtotals = or_else (lookup key subtotals) (pos 0)

-- The loop that fills `subtotals`.
unfoldable pub tally : Dict ℤ → List QuoteLine → Dict ℤ
tally subtotals [] = subtotals
tally subtotals (line ∷ lines) =
    if is_freight line.line_group
    then tally subtotals lines
    else let key = subtotal_key line in
      tally (insert key (subtotal_of key subtotals +ℤ line.extended) subtotals) lines

unfoldable pub put_subtotal : Dict ℤ → QuoteLine → QuoteLine
unfolding shed
put_subtotal subtotals line = record line {
  subtotal =
      if is_freight line.line_group
      then pos 0
      else shed 0 (subtotal_of (subtotal_key line) subtotals);
}

-- `sum(subtotals.values(), Decimal("0"))`
unfoldable pub sum_values : Dict ℤ → ℤ
sum_values [] = pos 0
sum_values ((key, amount) ∷ subtotals) = amount +ℤ sum_values subtotals

unfoldable pub tax_on : Option TaxRate → ℤ → ℤ
unfolding shed
tax_on none taxable = pos 0
tax_on (some row) taxable = shed 4 (taxable *ℤ row.rate_pct)

abbrev pub rate_of : Option TaxRate → Option ℤ
rate_of none = none
rate_of (some row) = some row.rate_pct

-- The totals of a quote, from its subtotals.
unfoldable pub total_quote : ReferenceCache → Dict ℤ → Quote → Quote
unfolding sum_values tax_on shed
total_quote cache subtotals quote =
    let subtotal_sale = shed 0 (sum_values subtotals) in
    let taxable = subtotal_sale +ℤ or_else quote.freight_amount (pos 0) in
    let tax_row = tax_effective_on cache.tax_rates cache.as_of quote.tax_jurisdiction in
    let tax_amount = tax_on tax_row taxable in
    record quote {
      subtotal_sale = subtotal_sale;
      tax_rate_applied = rate_of tax_row;
      tax_amount = tax_amount;
      grand_total = shed 0 (taxable +ℤ tax_amount);
    }

unfoldable pub assemble_quote :
    ℕ → ReferenceCache → Quote → List QuoteLine → Option (Quote × List QuoteLine)
assemble_quote months cache quote lines = elim (price_lines months cache lines) [
  | none ↦ none
  | some priced ↦
      let subtotals = tally [] priced in
      some (total_quote cache subtotals quote, map (put_subtotal subtotals) priced)
]
