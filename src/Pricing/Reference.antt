-- ===== src/Pricing/Reference.antt =====
-- The reference tables with effective dates (EffectiveDatedQuerySet, MarginBand, VendorMultiplier
-- and TaxRate of backend/api/pricing/models.py, and ReferenceCache of
-- backend/api/quotes/pricing_ops.py). A date is a day number. The cache lives for one operation on
-- one date, so reading through it is reading the table.
use mathlib.Core.List.{Memᴰ}
use mathlib.Core.Path.{subst}
use native.Mathlib.Nat.{le_refl}
use cbc_new.Prelude.Members.{All_get, mem_of_keep, mem-keep}
use cbc_new.Prelude.{
  ℕ, ◌≤◌, ◌≡◌, ◌≢◌, String, Bool, true, not, ◌&&◌, Option, none, some, List, [], ◌∷◌, arith,
  if◌then◌else◌, leb, ltb, keep, is_empty, All, All-impl, Bool-cases, Option-cases, inl, inr,
}
use cbc_new.Prelude.Text.{Text, strip, to_upper, is_listed, text_eq}
use cbc_new.Prelude.Int.{ℤ}
use text.Mathlib.Text.{◌==◌ as str_eq}

pub record MarginBand : Type 0 where
  pub product_type_band : String
  pub target_margin_pct : ℤ
  pub floor_margin_pct : Option ℤ
  pub effective_date : ℕ

pub record VendorMultiplier : Type 0 where
  pub vendor_name : String
  pub multiplier : ℤ
  pub source_sheet_version : String
  pub effective_date : ℕ

pub record TaxRate : Type 0 where
  pub jurisdiction : Text
  pub rate_pct : ℤ
  pub effective_date : ℕ

module _ {A : Type 0} (date : A → ℕ) where
  -- `.order_by("-effective_date").first()`, of rows with different dates.
  unfoldable pub latest : List A → Option A
  latest [] = none
  latest (r ∷ rs) = elim (latest rs) [
    | none ↦ some r
    | some s ↦ if ltb (date r) (date s) then some s else some r
  ]

  -- `.filter(key).filter(effective_date__lte=on)`, then the latest.
  unfoldable pub effective_on : (A → Bool) → ℕ → List A → Option A
  unfolding latest
  effective_on key on rows = latest (keep (λ r. key r && leb (date r) on) rows)

  -- The row is in force on the date, and no row of the key in force on it is later.
  pub record IsInForce (key : A → Bool) (on : ℕ) (rows : List A) (r : A) : Type 0 where
    pub listed : Memᴰ r rows
    pub keyed : key r ≡ true
    pub started : date r ≤ on
    pub last : (s : A) → Memᴰ s rows → key s ≡ true → date s ≤ on → date s ≤ date r

  latest-ne-none : (r : A) (rows : List A) → latest (r ∷ rows) ≢ none
  unfolding latest
  latest-ne-none r rows e = ground arith

  latest_last : (rows : List A) (r : A) → latest rows ≡ some r → All (λ s. date s ≤ date r) rows
  unfolding latest
  latest_last [] r e = tt
  latest_last (q ∷ []) r e = let same : q ≡ r = ground arith in (rw same (le_refl (date r)), tt)
  latest_last (q ∷ (p ∷ rows)) r e = elim (Option-cases (latest (p ∷ rows))) [
    | inl nothing ↦ absurd (latest-ne-none p rows nothing)
    | inr (s, found) ↦
        let rest = latest_last (p ∷ rows) s found in
        elim (Bool-cases (ltb (date q) (date s))) [
          | inl later ↦
              let same : s ≡ r = ground (arith, found, later) in
              subst (λ u. All (λ t. date t ≤ date u) (q ∷ (p ∷ rows))) same (ground arith, rest)
          | inr earlier ↦
              let same : q ≡ r = ground (arith, found, earlier) in
              let below : All (λ u. date u ≤ date q) (p ∷ rows) =
                All-impl (λ u. date u ≤ date s) (λ u. date u ≤ date q) (p ∷ rows)
                  (λ u le. ground arith) rest in
              subst (λ u. All (λ t. date t ≤ date u) (q ∷ (p ∷ rows))) same
                (le_refl (date q), below)
        ]
  ]

  latest-mem : (rows : List A) (r : A) → latest rows ≡ some r → Memᴰ r rows
  unfolding latest
  latest-mem [] r e = cc
  latest-mem (q ∷ rows) r e = elim (Option-cases (latest rows)) [
    | inl nothing ↦ Memᴰ.head (ground (arith, nothing))
    | inr (s, found) ↦ elim (Bool-cases (ltb (date q) (date s))) [
      | inl later ↦ Memᴰ.tail (latest-mem rows r (ground (arith, found, later)))
      | inr earlier ↦ Memᴰ.head (ground (arith, found, earlier))
    ]
  ]

  -- The row that is read is in force on the date, and none of its key in force then is later.
  pub effective_on-IsInForce :
      (key : A → Bool) (on : ℕ) (rows : List A) (r : A)
      → effective_on key on rows ≡ some r
      → IsInForce key on rows r
  unfolding effective_on
  effective_on-IsInForce key on rows r e =
      let p : A → Bool = λ s. key s && leb (date s) on in
      let (m, holds) = mem_of_keep p rows r (latest-mem (keep p rows) r e) in
      record {
        listed = m;
        keyed = ground arith;
        started = ground arith;
        last = λ s ms ks le.
            All_get (λ u. date u ≤ date r) (keep p rows) s (latest_last (keep p rows) r e)
              (mem-keep p rows s ms (ground arith));
      }

unfoldable pub margin_effective_on : List MarginBand → ℕ → String → Option MarginBand
unfolding effective_on
margin_effective_on rows on band =
    effective_on (λ (r : MarginBand). r.effective_date) (λ r. str_eq r.product_type_band band) on
      rows

unfoldable pub multiplier_effective_on :
    List VendorMultiplier → ℕ → String → Option VendorMultiplier
unfolding effective_on
multiplier_effective_on rows on vendor =
    effective_on (λ (r : VendorMultiplier). r.effective_date) (λ r. str_eq r.vendor_name vendor) on
      rows

abbrev pub taxable_jurisdictions : List String
taxable_jurisdictions = "OH" ∷ "KY" ∷ []

unfoldable pub tax_effective_on : List TaxRate → ℕ → Option Text → Option TaxRate
unfolding effective_on
tax_effective_on rows on none = none
tax_effective_on rows on (some jurisdiction) =
    let code = to_upper (strip jurisdiction) in
    if is_empty jurisdiction
    then none
    else if not (is_listed code taxable_jurisdictions)
    then none
    else effective_on (λ (r : TaxRate). r.effective_date) (λ r. text_eq r.jurisdiction code) on rows

-- The tables, read on one date.
pub record ReferenceCache : Type 0 where
  pub as_of : ℕ
  pub margin_bands : List MarginBand
  pub multipliers : List VendorMultiplier
  pub tax_rates : List TaxRate
