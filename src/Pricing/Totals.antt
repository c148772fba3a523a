-- ===== src/Pricing/Totals.antt =====
-- What the figures of an assembled quote add up to (assemble_quote of
-- backend/api/quotes/pricing_ops.py).
use text.Mathlib.TextEquality.{eq_iff}
use cbc_new.Prelude.{
  String, ◌≡◌, refl, sym, ◌∙◌, ap, false, List, [], ◌∷◌, map, if◌then◌else◌, Bool-cases, inl, inr,
}
use cbc_new.Prelude.Dict.{Dict, lookup, insert, lookup-insert}
use cbc_new.Prelude.Int.{ℤ, pos, ◌+ℤ◌, +ℤ_assoc, int_laws}
use cbc_new.Pricing.Rounding.{shed-zero}
use cbc_new.Pricing.Line.{QuoteLine, is_freight}
use cbc_new.Pricing.Assembly.{subtotal_key, subtotal_of, tally, put_subtotal, sum_values}
use text.Mathlib.Text.{◌==◌ as str_eq}

-- The extended prices of the lines that are not freight, added up.
unfoldable pub goods_total : List QuoteLine → ℤ
goods_total [] = pos 0
goods_total (line ∷ lines) =
    let rest = goods_total lines in
    if is_freight line.line_group then rest else line.extended +ℤ rest

-- The same, of one block.
unfoldable pub block_total : String → List QuoteLine → ℤ
block_total key [] = pos 0
block_total key (line ∷ lines) =
    let rest = block_total key lines in
    if is_freight line.line_group
    then rest
    else if str_eq (subtotal_key line) key
    then line.extended +ℤ rest
    else rest

pub zero_add : (a : ℤ) → pos 0 +ℤ a ≡ a
zero_add a = omega int_laws

subtotal_of-insert :
    (k j : String) (v : ℤ) (d : Dict ℤ)
    → subtotal_of j (insert k v d) ≡ (if str_eq k j then v else subtotal_of j d)
unfolding subtotal_of
subtotal_of-insert k j v d =
    rw (lookup-insert k j v d)
      (elim (Bool-cases (str_eq k j)) [ inl same ↦ rw same | inr other ↦ rw other ])

subtotal_of-tally :
    (key : String) (d : Dict ℤ) (lines : List QuoteLine)
    → subtotal_of key (tally d lines) ≡ subtotal_of key d +ℤ block_total key lines
unfolding tally block_total
subtotal_of-tally key d [] = omega int_laws
subtotal_of-tally key d (line ∷ lines) = elim (Bool-cases (is_freight line.line_group)) [
  | inl skipped ↦ rw skipped (subtotal_of-tally key d lines)
  | inr counted ↦
      let k = subtotal_key line in
      let d' = insert k (subtotal_of k d +ℤ line.extended) d in
      let later = subtotal_of-tally key d' lines in
      let put = subtotal_of-insert k key (subtotal_of k d +ℤ line.extended) d in
      rw counted (elim (Bool-cases (str_eq k key)) [
        | inl same ↦
            let here : k ≡ key = (eq_iff k key).0 same in
            rw (same, later, put, same, here)
              (+ℤ_assoc (subtotal_of key d) line.extended (block_total key lines))
        | inr other ↦ rw (other, later, put, other) refl
      ])
]

subtotal_of-later :
    (k j : String) (v : ℤ) (d : Dict ℤ)
    → str_eq j k ≡ false
    → subtotal_of k ((j, v) ∷ d) ≡ subtotal_of k d
unfolding subtotal_of lookup
subtotal_of-later k j v d h = rw h

sum_values-insert :
    (k : String) (a x : ℤ) (d : Dict ℤ)
    → a ≡ subtotal_of k d
    → sum_values (insert k (a +ℤ x) d) ≡ sum_values d +ℤ x
unfolding sum_values insert subtotal_of lookup
sum_values-insert k a x [] h = rw h (omega int_laws)
sum_values-insert k a x ((j, v) ∷ d) h = elim (Bool-cases (str_eq j k)) [
  | inl same ↦ rw (h, same) (omega int_laws)
  | inr other ↦
      let later = sum_values-insert k a x d (h ∙ subtotal_of-later k j v d other) in
      rw other (ap (λ rest. v +ℤ rest) later ∙ sym (+ℤ_assoc v (sum_values d) x))
]

pub sum_values-tally :
    (d : Dict ℤ) (lines : List QuoteLine)
    → sum_values (tally d lines) ≡ sum_values d +ℤ goods_total lines
unfolding tally goods_total
sum_values-tally d [] = omega int_laws
sum_values-tally d (line ∷ lines) = elim (Bool-cases (is_freight line.line_group)) [
  | inl skipped ↦ rw skipped (sum_values-tally d lines)
  | inr counted ↦
      let k = subtotal_key line in
      let later = sum_values-tally (insert k (subtotal_of k d +ℤ line.extended) d) lines in
      rw (counted, later, sum_values-insert k (subtotal_of k d) line.extended d refl)
        (+ℤ_assoc (sum_values d) line.extended (goods_total lines))
]

pub goods_total-map :
    (d : Dict ℤ) (lines : List QuoteLine)
    → goods_total (map (put_subtotal d) lines) ≡ goods_total lines
unfolding goods_total put_subtotal
goods_total-map d [] = refl
goods_total-map d (line ∷ lines) = rw (goods_total-map d lines) refl

pub block_total-map :
    (key : String) (d : Dict ℤ) (lines : List QuoteLine)
    → block_total key (map (put_subtotal d) lines) ≡ block_total key lines
unfolding block_total put_subtotal subtotal_key
block_total-map key d [] = refl
block_total-map key d (line ∷ lines) = rw (block_total-map key d lines) refl

-- The subtotal that a line carries, among all the lines of its quote.
abbrev pub IsSubtotalled : List QuoteLine → QuoteLine → Type 0
IsSubtotalled all line =
    line.subtotal
    ≡ (if is_freight line.line_group then pos 0 else block_total (subtotal_key line) all)

subtotal_of-tally_all :
    (key : String) (lines : List QuoteLine)
    → subtotal_of key (tally [] lines) ≡ block_total key lines
unfolding subtotal_of lookup
subtotal_of-tally_all key lines = subtotal_of-tally key [] lines ∙ zero_add (block_total key lines)

pub put_subtotal-IsSubtotalled :
    (priced : List QuoteLine) (line : QuoteLine)
    → IsSubtotalled priced (put_subtotal (tally [] priced) line)
unfolding put_subtotal subtotal_key
put_subtotal-IsSubtotalled priced line =
    let key = subtotal_key line in
    rw (shed-zero (subtotal_of key (tally [] priced)), subtotal_of-tally_all key priced) refl
