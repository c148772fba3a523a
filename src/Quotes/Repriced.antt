-- ===== src/Quotes/Repriced.antt =====
-- What the assembly of a quote does to its rows (assemble_quote of
-- backend/api/quotes/pricing_ops.py): every row keeps all but its priced columns.
use mathlib.Core.Path.{subst}
use cbc_new.Prelude.{ℕ, ◌≡◌, refl, false, Option, some, List, [], ◌∷◌, map, Option-cases, inl, inr}
use cbc_new.Prelude.Dict.{Dict}
use cbc_new.Prelude.Int.{ℤ}
use cbc_new.Pricing.Reference.{ReferenceCache}
use cbc_new.Pricing.Line.{QuoteLine, price_line}
use cbc_new.Pricing.Assembly.{price_lines, tally, put_subtotal, assemble_quote}
use cbc_new.Pricing.Flags.{KeepsFlag, keeps_trans, price_line-KeepsFlag}
use cbc_new.Quotes.{
  QuoteRow, LineRow, Env, priced_columns, put_priced, put_assembled, assemble_rows,
}

-- The second row is the first one with other priced columns.
pub record KeepsRow (row row' : LineRow) : Type 0 where
  pub rest : row' ≡ record row { priced = row'.priced }
  pub flag : KeepsFlag row.priced row'.priced

abbrev pub IsRepriced : List LineRow → List LineRow → Type 0
IsRepriced [] [] = Unit
IsRepriced (row ∷ rows) (row' ∷ rows') = KeepsRow row row' × IsRepriced rows rows'
IsRepriced _ _ = ⊥

put_subtotal_keeps : (d : Dict ℤ) (line : QuoteLine) → KeepsFlag line (put_subtotal d line)
unfolding put_subtotal
put_subtotal_keeps d line = record { item = refl; group = refl; quantity = refl; flag = λ h. h }

put_priced-IsRepriced :
    (months : ℕ) (cache : ReferenceCache) (d : Dict ℤ) (rows : List LineRow)
    (priced : List QuoteLine)
    → price_lines months cache (priced_columns rows) ≡ some priced
    → IsRepriced rows (put_priced rows (map (put_subtotal d) priced))
unfolding price_lines put_priced
put_priced-IsRepriced months cache d [] priced e = tt
put_priced-IsRepriced months cache d (row ∷ rows) priced e =
    elim (Option-cases (price_line months cache false row.priced)) [
      | inl failed ↦ absurd (let stuck = rw (failed, price_lines) at e in cc)
      | inr (p, done) ↦ elim (Option-cases (price_lines months cache (priced_columns rows))) [
        | inl stopped ↦ absurd (let stuck = rw (done, stopped, price_lines) at e in cc)
        | inr (rest, finished) ↦
            let here = rw (done, finished, price_lines) at e in
            let whole : p ∷ rest ≡ priced = cc in
            let keeps = price_line-KeepsFlag cache months false row.priced p done in
            subst
              (λ ps. IsRepriced (row ∷ rows) (put_priced (row ∷ rows) (map (put_subtotal d) ps)))
              whole
              (
                record { rest = refl; flag = keeps_trans keeps (put_subtotal_keeps d p) },
                put_priced-IsRepriced months cache d rows rest finished,
              )
      ]
    ]

pub record IsAssembled (quote : QuoteRow) (rows : List LineRow) (quote' : QuoteRow)
    (rows' : List LineRow) : Type 0 where
  pub rest : quote' ≡ record quote { totals = quote'.totals }
  pub lines : IsRepriced rows rows'

some_pair :
    {A B : Type 0} {a a' : A} {b b' : B} (P : A → B → Type 0)
    → (◌≡◌ {A = Option (A × B)} (some (a, b)) (some (a', b')))
    → P a b
    → P a' b'
some_pair {a} {a'} {b} {b'} P e h =
    let first : a ≡ a' = cc in
    let second : b ≡ b' = cc in subst (λ x. P x b') first (subst (λ y. P a y) second h)

pub assemble_rows-IsAssembled :
    (env : Env) (quote quote' : QuoteRow) (rows rows' : List LineRow)
    → assemble_rows env quote rows ≡ some (quote', rows')
    → IsAssembled quote rows quote' rows'
unfolding assemble_rows assemble_quote put_assembled
assemble_rows-IsAssembled env quote quote' rows rows' e =
    elim (Option-cases (price_lines env.months env.cache (priced_columns rows))) [
      | inl failed ↦ absurd (let stuck = rw (failed, assemble_quote) at e in cc)
      | inr (priced, done) ↦
          let here = rw (done, assemble_quote) at e in
          some_pair (IsAssembled quote rows) here (record {
            rest = refl;
            lines = put_priced-IsRepriced env.months env.cache (tally [] priced) rows priced done;
          })
    ]
