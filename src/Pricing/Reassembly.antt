-- ===== src/Pricing/Reassembly.antt =====
-- Assembling a quote that is already assembled (assemble_quote of
-- backend/api/quotes/pricing_ops.py).
use cbc_new.Prelude.{
  ℕ, ◌≡◌, refl, ap, false, some, List, [], ◌∷◌, map, All, Bool-cases, Option-cases, inl, inr,
}
use cbc_new.Prelude.Dict.{Dict, insert}
use cbc_new.Prelude.Int.{ℤ, ◌+ℤ◌}
use cbc_new.Pricing.Reference.{ReferenceCache}
use cbc_new.Pricing.Line.{QuoteLine, is_freight, price_line}
use cbc_new.Pricing.Repricing.{price_line_again}
use cbc_new.Pricing.Carry.{carry-price_line}
use cbc_new.Pricing.Assembly.{
  Quote, subtotal_key, price_lines, subtotal_of, tally, put_subtotal, total_quote, assemble_quote,
}

-- Each line is the result of pricing some line.
abbrev ArePriced : ℕ → ReferenceCache → List QuoteLine → Type 0
ArePriced months cache lines = All (λ p. price_line months cache false p ≡ some p) lines

price_lines-ArePriced :
    (months : ℕ) (cache : ReferenceCache) (lines priced : List QuoteLine)
    → price_lines months cache lines ≡ some priced
    → ArePriced months cache priced
unfolding price_lines
price_lines-ArePriced months cache [] priced e =
    let none_left : [] ≡ priced = cc in rw (← none_left) tt
price_lines-ArePriced months cache (line ∷ lines) priced e =
    elim (Option-cases (price_line months cache false line)) [
      | inl failed ↦ absurd (let stuck = rw (failed, price_lines) at e in cc)
      | inr (p, done) ↦ elim (Option-cases (price_lines months cache lines)) [
        | inl stopped ↦ absurd (let stuck = rw (done, stopped, price_lines) at e in cc)
        | inr (rest, finished) ↦
            let here = rw (done, finished, price_lines) at e in
            let whole : p ∷ rest ≡ priced = cc in
            let again = price_line_again months cache false line p done in
            rw (← whole) (again, price_lines-ArePriced months cache lines rest finished)
      ]
    ]

put_subtotal_priced :
    (months : ℕ) (cache : ReferenceCache) (d : Dict ℤ) (line : QuoteLine)
    → price_line months cache false line ≡ some line
    → price_line months cache false (put_subtotal d line) ≡ some (put_subtotal d line)
unfolding put_subtotal
put_subtotal_priced months cache d line e = carry-price_line _ cache months false line line e

price_lines-cons :
    (months : ℕ) (cache : ReferenceCache) (line p : QuoteLine) (lines ps : List QuoteLine)
    → price_line months cache false line ≡ some p
    → price_lines months cache lines ≡ some ps
    → price_lines months cache (line ∷ lines) ≡ some (p ∷ ps)
unfolding price_lines
price_lines-cons months cache line p lines ps e f = rw (e, f, price_lines) refl

price_lines_again :
    (months : ℕ) (cache : ReferenceCache) (d : Dict ℤ) (priced : List QuoteLine)
    → ArePriced months cache priced
    → price_lines months cache (map (put_subtotal d) priced) ≡ some (map (put_subtotal d) priced)
unfolding price_lines
price_lines_again months cache d [] h = refl
price_lines_again months cache d (p ∷ priced) h =
    price_lines-cons months cache (put_subtotal d p) (put_subtotal d p) _ _
      (put_subtotal_priced months cache d p h.0) (price_lines_again months cache d priced h.1)

tally_again :
    (d start : Dict ℤ) (lines : List QuoteLine)
    → tally start (map (put_subtotal d) lines) ≡ tally start lines
unfolding tally put_subtotal subtotal_key
tally_again d start [] = refl
tally_again d start (line ∷ lines) = elim (Bool-cases (is_freight line.line_group)) [
  | inl skipped ↦ rw skipped (tally_again d start lines)
  | inr counted ↦ rw counted (
      tally_again d
        (insert (subtotal_key line) (subtotal_of (subtotal_key line) start +ℤ line.extended) start)
        lines)
]

map-put_subtotal_again :
    (d : Dict ℤ) (lines : List QuoteLine)
    → map (put_subtotal d) (map (put_subtotal d) lines) ≡ map (put_subtotal d) lines
unfolding put_subtotal subtotal_key
map-put_subtotal_again d [] = refl
map-put_subtotal_again d (line ∷ lines) =
    ap (λ l. put_subtotal d line ∷ l) (map-put_subtotal_again d lines)

total_quote_again :
    (cache : ReferenceCache) (d : Dict ℤ) (quote : Quote)
    → total_quote cache d (total_quote cache d quote) ≡ total_quote cache d quote
unfolding total_quote
total_quote_again cache d quote = refl

assembled_again :
    (months : ℕ) (cache : ReferenceCache) (quote : Quote) (priced : List QuoteLine)
    → ArePriced months cache priced
    → let d = tally [] priced in
      let q = total_quote cache d quote in
      let ls = map (put_subtotal d) priced in assemble_quote months cache q ls ≡ some (q, ls)
unfolding assemble_quote
assembled_again months cache quote priced h =
    let d = tally [] priced in
    rw (
      price_lines_again months cache d priced h,
      assemble_quote,
      tally_again d [] priced,
      total_quote_again cache d quote,
      map-put_subtotal_again d priced,
    )

-- A quote that has been assembled stays as it is, with all its lines, when it is assembled again with
-- the same tables on the same day.
pub assemble_quote_again :
    (months : ℕ) (cache : ReferenceCache) (quote q : Quote) (lines ls : List QuoteLine)
    → assemble_quote months cache quote lines ≡ some (q, ls)
    → assemble_quote months cache q ls ≡ some (q, ls)
unfolding assemble_quote
assemble_quote_again months cache quote q lines ls e =
    elim (Option-cases (price_lines months cache lines)) [
      | inl failed ↦ absurd (let stuck = rw (failed, assemble_quote) at e in cc)
      | inr (priced, done) ↦
          let d = tally [] priced in
          let here = rw (done, assemble_quote) at e in
          let totals : total_quote cache d quote ≡ q = cc in
          let subtotals : map (put_subtotal d) priced ≡ ls = cc in
          rw (← totals, ← subtotals)
            (assembled_again months cache quote priced
              (price_lines-ArePriced months cache lines priced done))
    ]
