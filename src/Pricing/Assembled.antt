-- ===== src/Pricing/Assembled.antt =====
-- The figures that an assembled quote is saved with (assemble_quote of
-- backend/api/quotes/pricing_ops.py).
use mathlib.Core.List.{Memᴰ}
use cbc_new.Prelude.{
  ℕ, ◌≡◌, refl, sym, ◌∙◌, false, none, some, List, [], ◌∷◌, map, arith, or_else, is_empty, All,
  Bool-cases, Option-cases, inl, inr,
}
use cbc_new.Prelude.Text.{Text, strip, to_upper, is_listed}
use cbc_new.Prelude.Dict.{Dict}
use cbc_new.Prelude.Int.{ℤ, pos, ◌+ℤ◌, ◌*ℤ◌, ◌≤ℤ◌, int_laws}
use cbc_new.Pricing.Rounding.{shed, shed-zero, IsNearest, round_half_up-IsNearest}
use cbc_new.Pricing.Reference.{TaxRate, ReferenceCache, tax_effective_on, taxable_jurisdictions}
use cbc_new.Pricing.Line.{QuoteLine, is_freight, band_for, price_line}
use cbc_new.Pricing.Margin.{applied_margin, price_line_fails_iff}
use cbc_new.Pricing.Assembly.{
  Quote, subtotal_key, price_lines, tally, put_subtotal, sum_values, tax_on, total_quote,
  assemble_quote,
}
use cbc_new.Pricing.Totals.{
  goods_total, zero_add, sum_values-tally, goods_total-map, block_total-map, IsSubtotalled,
  put_subtotal-IsSubtotalled,
}

-- The figures of a quote and its lines add up, in cents.
pub record IsAddedUp (quote : Quote) (lines : List QuoteLine) : Type 0 where
  pub goods : quote.subtotal_sale ≡ goods_total lines
  pub blocks : All (IsSubtotalled lines) lines
  pub total :
      quote.grand_total
      ≡ quote.subtotal_sale +ℤ or_else quote.freight_amount (pos 0) +ℤ quote.tax_amount

All-IsSubtotalled :
    (priced lines : List QuoteLine)
    → let d = tally [] priced in
      All (IsSubtotalled (map (put_subtotal d) priced)) (map (put_subtotal d) lines)
All-IsSubtotalled priced [] = tt
All-IsSubtotalled priced (line ∷ lines) =
    let d = tally [] priced in
    let key = subtotal_key (put_subtotal d line) in
    (
      rw (block_total-map key d priced) (put_subtotal-IsSubtotalled priced line),
      All-IsSubtotalled priced lines,
    )

total_quote-IsAddedUp :
    (cache : ReferenceCache) (quote : Quote) (priced : List QuoteLine)
    → let d = tally [] priced in IsAddedUp (total_quote cache d quote) (map (put_subtotal d) priced)
unfolding total_quote
total_quote-IsAddedUp cache quote priced =
    let d = tally [] priced in
    record {
      goods =
          shed-zero (sum_values d)
          ∙ (sum_values-tally [] priced
              ∙ (zero_add (goods_total priced) ∙ sym (goods_total-map d priced)));
      blocks = All-IsSubtotalled priced priced;
      total = shed-zero _;
    }

untaxed :
    (cache : ReferenceCache) (quote : Quote) (d : Dict ℤ) (j : Text)
    → quote.tax_jurisdiction ≡ some j
    → is_listed (to_upper (strip j)) taxable_jurisdictions ≡ false
    → ((total_quote cache d quote).tax_rate_applied ≡ none)
      × ((total_quote cache d quote).tax_amount ≡ pos 0)
unfolding total_quote tax_effective_on tax_on
untaxed cache quote d j at_j out = elim (Bool-cases (is_empty j)) [
  | inl blank ↦ rw (at_j, blank) (refl, refl)
  | inr written ↦ rw (at_j, written, out) (refl, refl)
]

taxed :
    (cache : ReferenceCache) (quote : Quote) (d : Dict ℤ) (row : TaxRate)
    → tax_effective_on cache.tax_rates cache.as_of quote.tax_jurisdiction ≡ some row
    → let t = total_quote cache d quote in
      (t.tax_rate_applied ≡ some row.rate_pct)
      × IsNearest t.tax_amount
          ((t.subtotal_sale +ℤ or_else t.freight_amount (pos 0)) *ℤ row.rate_pct)
          10_000
unfolding total_quote tax_on shed
taxed cache quote d row f = rw f (refl, round_half_up-IsNearest _ 10_000 (omega arith))

module _ (months : ℕ) (cache : ReferenceCache) (quote : Quote) (lines : List QuoteLine) where
  assembled_from :
      (q : Quote) (ls : List QuoteLine)
      → assemble_quote months cache quote lines ≡ some (q, ls)
      → (priced : List QuoteLine) × (total_quote cache (tally [] priced) quote ≡ q)
        × (map (put_subtotal (tally [] priced)) priced ≡ ls)
  unfolding assemble_quote
  assembled_from q ls e = elim (Option-cases (price_lines months cache lines)) [
    | inl failed ↦ absurd (let stuck = rw (failed, assemble_quote) at e in cc)
    | inr (priced, done) ↦ let here = rw (done, assemble_quote) at e in (priced, cc, cc)
  ]

  module _ (q : Quote) (ls : List QuoteLine)
      (e : assemble_quote months cache quote lines ≡ some (q, ls)) where
    -- In an assembled quote the sale subtotal is the sum of the extended prices of all lines that
    -- are not freight, each such line carries the sum over the lines of its own block and a freight
    -- line carries zero, and the grand total is the sale subtotal plus freight plus tax.
    pub assemble_quote-IsAddedUp : IsAddedUp q ls
    assemble_quote-IsAddedUp =
        let (priced, totals, subtotals) = assembled_from q ls e in
        rw (← totals, ← subtotals) (total_quote-IsAddedUp cache quote priced)

    -- Outside Ohio and Kentucky a quote carries no tax, whatever rows the rate table has: its grand
    -- total is the sum of its lines that are not freight, plus freight.
    pub no_tax_elsewhere :
        (jurisdiction : Text)
        → quote.tax_jurisdiction ≡ some jurisdiction
        → is_listed (to_upper (strip jurisdiction)) taxable_jurisdictions ≡ false
        → (q.tax_rate_applied ≡ none)
          × (q.grand_total ≡ goods_total ls +ℤ or_else q.freight_amount (pos 0))
    no_tax_elsewhere jurisdiction here outside =
        let (priced, totals, subtotals) = assembled_from q ls e in
        let added = assemble_quote-IsAddedUp in
        let (no_rate, no_tax) = untaxed cache quote (tally [] priced) jurisdiction here outside in
        let rate : q.tax_rate_applied ≡ none = rw totals at no_rate in
        let tax : q.tax_amount ≡ pos 0 = rw totals at no_tax in
        (rate, rw (added.total, tax, added.goods) (omega int_laws))

    -- Where a rate is in force, the quote carries it, and its tax is the nearest cent to the rate
    -- times the sale subtotal plus freight.
    pub tax-IsNearest :
        (row : TaxRate)
        → tax_effective_on cache.tax_rates cache.as_of quote.tax_jurisdiction ≡ some row
        → (q.tax_rate_applied ≡ some row.rate_pct)
          × IsNearest q.tax_amount
              ((q.subtotal_sale +ℤ or_else q.freight_amount (pos 0)) *ℤ row.rate_pct)
              10_000
    tax-IsNearest row in_force =
        let (priced, totals, subtotals) = assembled_from q ls e in
        rw (← totals) (taxed cache quote (tally [] priced) row in_force)

-- A line that cannot be priced stands in the list.
abbrev pub HasUnpriceable : ReferenceCache → List QuoteLine → Type 0
HasUnpriceable cache lines =
    (line : QuoteLine) × Memᴰ line lines
    × (is_freight line.line_group ≡ false)
    × (pos 10_000 ≤ℤ applied_margin (band_for cache line) line.margin_pct)

fails_price_lines :
    (months : ℕ) (cache : ReferenceCache) (lines : List QuoteLine) (line : QuoteLine)
    → Memᴰ line lines
    → price_line months cache false line ≡ none
    → price_lines months cache lines ≡ none
unfolding price_lines
fails_price_lines months cache [] line m f = elim m [ ]
fails_price_lines months cache (other ∷ lines) line (Memᴰ.head e) f =
    let failed : price_line months cache false other ≡ none = rw e at f in
    rw (failed, price_lines) refl
fails_price_lines months cache (other ∷ lines) line (Memᴰ.tail m) f =
    let rest = fails_price_lines months cache lines line m f in
    elim (Option-cases (price_line months cache false other)) [
      | inl failed ↦ rw (failed, price_lines) refl
      | inr (priced, done) ↦ rw (done, rest, price_lines) refl
    ]

-- A quote is assembled only if every line that is not freight has an applied margin below 1: that of
-- the band in force for its item, or its own where it is overridden or no band applies.
pub assembled-priceable :
    (months : ℕ) (cache : ReferenceCache) (quote : Quote) (lines : List QuoteLine)
    (r : Quote × List QuoteLine)
    → assemble_quote months cache quote lines ≡ some r
    → ¬ HasUnpriceable cache lines
unfolding assemble_quote
assembled-priceable months cache quote lines r e (line, m, goods, high) =
    let failed =
      fails_price_lines months cache lines line m
        ((price_line_fails_iff months cache false line).1 (goods, high)) in
    let stuck = rw (failed, assemble_quote) at e in cc
