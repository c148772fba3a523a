-- ===== src/Pricing/Flags.antt =====
-- What the pricing of a line keeps of it (price_line of backend/api/quotes/pricing_ops.py): a line
-- that is flagged for review stays flagged.
use cbc_new.Prelude.{
  ℕ, ◌≡◌, refl, ◌∙◌, Bool, true, not, ◌&&◌, Option, none, some, arith, Bool-cases, inl, inr,
}
use mathlib.Core.Path.{subst}
use cbc_new.Prelude.Int.{ℤ, pos, ltb_ℤ}
use cbc_new.Pricing.Reference.{
  MarginBand, VendorMultiplier, ReferenceCache, multiplier_effective_on,
}
use cbc_new.Pricing.Line.{
  PricedItem, QuoteLine, is_freight, Sourced, lookup_p21_last_po, from_list, source_price,
  source_item, source_cost, resolve_cost, mark_staleness, band_for, apply_band, resolve_margin,
  check_floor, extend, price_freight, put_cost, cost_line, price_line,
}

-- The second line is the first one after some pricing.
pub record KeepsFlag (line line' : QuoteLine) : Type 0 where
  pub item : line'.catalog_item ≡ line.catalog_item
  pub group : line'.line_group ≡ line.line_group
  pub quantity : line'.quantity ≡ line.quantity
  pub flag : line.needs_review ≡ true → line'.needs_review ≡ true

kept : (line : QuoteLine) → KeepsFlag line line
kept line = record { item = refl; group = refl; quantity = refl; flag = λ h. h }

pub keeps_trans : {a b c : QuoteLine} → KeepsFlag a b → KeepsFlag b c → KeepsFlag a c
keeps_trans p q = record {
  item = q.item ∙ p.item;
  group = q.group ∙ p.group;
  quantity = q.quantity ∙ p.quantity;
  flag = λ h. q.flag (p.flag h);
}

module _ (cache : ReferenceCache) where
  from_list_keeps :
      (row : Option VendorMultiplier) (price : ℤ) (line : QuoteLine)
      → KeepsFlag line (from_list row price line).line
  unfolding from_list
  from_list_keeps none price line = record {
    item = refl;
    group = refl;
    quantity = refl;
    flag = λ h. refl;
  }
  from_list_keeps (some row) price line = record {
    item = refl;
    group = refl;
    quantity = refl;
    flag = λ h. h;
  }

  source_price_keeps :
      (item : PricedItem) (price : Option ℤ) (line : QuoteLine)
      → KeepsFlag line (source_price cache item price line).line
  unfolding source_price
  source_price_keeps item none line = record {
    item = refl;
    group = refl;
    quantity = refl;
    flag = λ h. refl;
  }
  source_price_keeps item (some price) line =
      from_list_keeps (multiplier_effective_on cache.multipliers cache.as_of item.vendor) price line

  source_item_keeps :
      (cost : Option ℤ) (item : Option PricedItem) (line : QuoteLine)
      → KeepsFlag line (source_item cache cost item line).line
  unfolding source_item
  source_item_keeps (some cost) item line = kept line
  source_item_keeps none none line = record {
    item = refl;
    group = refl;
    quantity = refl;
    flag = λ h. refl;
  }
  source_item_keeps none (some item) line = source_price_keeps item item.list_price line

  resolve_cost_keeps :
      (resource : Bool) (line : QuoteLine) → KeepsFlag line (resolve_cost cache resource line).line
  unfolding resolve_cost source_cost
  resolve_cost_keeps resource line =
      elim (Bool-cases (not resource && ltb_ℤ (pos 0) line.our_cost)) [
        | inl own ↦ rw own (kept line)
        | inr sourced ↦ rw sourced (
            source_item_keeps (lookup_p21_last_po line.catalog_item cache.as_of) line.catalog_item
              line)
      ]

  put_cost_keeps : (months : ℕ) (s : Sourced) → KeepsFlag s.line (put_cost months cache s)
  unfolding put_cost mark_staleness
  put_cost_keeps months s = record { item = refl; group = refl; quantity = refl; flag = λ h. h }

  apply_band_keeps :
      (band : Option MarginBand) (line : QuoteLine) → KeepsFlag line (apply_band band line)
  unfolding apply_band
  apply_band_keeps none line = kept line
  apply_band_keeps (some band) line = record {
    item = refl;
    group = refl;
    quantity = refl;
    flag = λ h. h;
  }

  check_floor_keeps : (line : QuoteLine) → KeepsFlag line (check_floor cache (extend line))
  unfolding check_floor extend
  check_floor_keeps line = record { item = refl; group = refl; quantity = refl; flag = λ h. h }

  cost_line_keeps :
      (months : ℕ) (resource : Bool) (line : QuoteLine)
      → KeepsFlag line (cost_line months cache resource line)
  unfolding cost_line resolve_margin
  cost_line_keeps months resource line =
      let s = resolve_cost cache resource line in
      let costed = put_cost months cache s in
      keeps_trans (resolve_cost_keeps resource line)
        (keeps_trans (put_cost_keeps months s) (apply_band_keeps (band_for cache costed) costed))

  price_freight_keeps : (line : QuoteLine) → KeepsFlag line (price_freight line)
  unfolding price_freight
  price_freight_keeps line = record { item = refl; group = refl; quantity = refl; flag = λ h. h }

  -- Pricing a line keeps its item, its block, its quantity and its flag.
  pub price_line-KeepsFlag :
      (months : ℕ) (resource : Bool) (line p : QuoteLine)
      → price_line months cache resource line ≡ some p
      → KeepsFlag line p
  unfolding price_line
  price_line-KeepsFlag months resource line p e =
      let costed = cost_line months cache resource line in
      elim (Bool-cases (is_freight line.line_group)) [
        | inl freight ↦
            let same : price_freight line ≡ p = ground (arith, freight) in
            subst (λ q. KeepsFlag line q) same (price_freight_keeps line)
        | inr goods ↦ elim (Bool-cases (ltb_ℤ costed.margin_pct (pos 10_000))) [
          | inr not_below ↦ absurd (ground (arith, goods, not_below))
          | inl below ↦
              let same : check_floor cache (extend costed) ≡ p = ground (arith, goods, below) in
              subst (λ q. KeepsFlag line q) same
                (keeps_trans (cost_line_keeps months resource line) (check_floor_keeps costed))
        ]
      ]
