-- ===== src/Quotes/Draft/Lines.antt =====
-- The lines that a draft gets (generate_lines of backend/api/quotes/draft_ops.py).
use cbc_new.Prelude.{
  suc, ◌≤◌, ◌≡◌, refl, sym, ◌∙◌, ap, Bool, true, not, ◌&&◌, Option, none, some, List, [], ◌∷◌, ◌++◌,
  map, keep, length, any, Bool-cases, inl, inr, All,
}
use cbc_new.Quotes.{QuoteRow, LineRow, Env, assemble_rows, is_draft}
use cbc_new.Quotes.Repriced.{KeepsRow, IsRepriced, assemble_rows-IsAssembled}
use cbc_new.Quotes.Draft.{
  Project, opening_lines, is_generated, is_freight_row, draft_lines, Drafted, drafted, drafted_as,
  generate_lines,
}
use cbc_new.Quotes.Draft.Rows.{IsFixed, map_fixed, any_fixed, keep-IsRepriced, All-repriced}
use cbc_new.Quotes.Draft.Made.{
  purpose, wanted, count_up, IsFlagged, without_opening, made_rows, kept_rows, freight_row,
  IsFlagged-rows, opening_lines_purposes, opening_lines_numbers,
}
use mathlib.Core.Path.{subst}

-- The lines of a generated draft: one for each purpose in order, numbered from 1; every line of
-- before that has no opening, with at most a freight line more; a freight line; and a flag on every generated
-- line that has no item.
pub record IsDraftOf (project : Project) (rows rows' : List LineRow) : Type 0 where
  pub purposes : map purpose (keep is_generated rows') ≡ wanted project project.openings
  pub numbers :
      let made = keep is_generated rows' in
      map (λ row. row.line_order) made ≡ count_up 0 (length made)
  pub kept :
      (added : List LineRow) × (length added ≤ 1)
      × IsRepriced (without_opening rows ++ added) (without_opening rows')
  pub freight : any is_freight_row rows' ≡ true
  pub flagged : All IsFlagged rows'

length_repriced : (rows rows' : List LineRow) → IsRepriced rows rows' → length rows' ≡ length rows
length_repriced [] [] h = refl
length_repriced (row ∷ rows) (row' ∷ rows') h = ap suc (length_repriced rows rows' h.1)
length_repriced [] (row' ∷ rows') h = elim h [ ]
length_repriced (row ∷ rows) [] h = elim h [ ]

IsFixed-part :
    {B : Type 0} (f : LineRow → B)
    → ((row row' : LineRow) → f (record row { priced = row'.priced }) ≡ f row)
    → IsFixed f
IsFixed-part f same row row' h = ap f h.rest ∙ same row row'

purpose-IsFixed : IsFixed purpose
purpose-IsFixed = IsFixed-part purpose (λ row row'. refl)

generated-IsFixed : IsFixed is_generated
generated-IsFixed = IsFixed-part is_generated (λ row row'. refl)

order-IsFixed : IsFixed (λ row. row.line_order)
order-IsFixed = IsFixed-part (λ row. row.line_order) (λ row row'. refl)

freight-IsFixed : IsFixed is_freight_row
freight-IsFixed row row' h = rw (h.flag.group) refl

IsFlagged-fixed : (row row' : LineRow) → KeepsRow row row' → IsFlagged row → IsFlagged row'
IsFlagged-fixed row row' h f g no_item =
    h.flag.flag (f (sym (generated-IsFixed row row' h) ∙ g) (sym h.flag.item ∙ no_item))

draft_lines-IsDraftOf :
    (env : Env) (project : Project) (quote : QuoteRow) (rows rows' : List LineRow)
    → IsRepriced (draft_lines env project quote rows) rows'
    → IsDraftOf project rows rows'
draft_lines-IsDraftOf env project quote rows rows' h =
    let made = opening_lines env project 0 project.openings in
    let shown =
      keep-IsRepriced is_generated (draft_lines env project quote rows) rows' generated-IsFixed h in
    let generated : IsRepriced made (keep is_generated rows') =
      subst (λ l. IsRepriced l (keep is_generated rows')) (made_rows env project quote rows)
        shown in
    let (added, few, same) = kept_rows env project quote rows in
    let hand =
      keep-IsRepriced (λ row. not (is_generated row)) (draft_lines env project quote rows) rows'
        (λ row row' k. ap not (generated-IsFixed row row' k)) h in
    record {
      purposes =
          map_fixed purpose made (keep is_generated rows') purpose-IsFixed generated
          ∙ opening_lines_purposes env project 0 project.openings;
      numbers =
          map_fixed (λ row. row.line_order) made (keep is_generated rows') order-IsFixed generated
          ∙ (opening_lines_numbers env project 0 project.openings
              ∙ ap (count_up 0) (sym (length_repriced made (keep is_generated rows') generated)));
      kept = (added, few, subst (λ l. IsRepriced l (without_opening rows')) same hand);
      freight =
          any_fixed is_freight_row (draft_lines env project quote rows) rows' freight-IsFixed h
          ∙ freight_row env project quote rows;
      flagged =
          All-repriced IsFlagged (draft_lines env project quote rows) rows' IsFlagged-fixed h
            (IsFlagged-rows env project quote rows);
    }

abbrev result_of : Drafted → Option (QuoteRow × List LineRow)
result_of (drafted quote rows) = some (quote, rows)
result_of _ = none

result_of-drafted_as : (o : Option (QuoteRow × List LineRow)) → o ≡ result_of (drafted_as o)
result_of-drafted_as none = refl
result_of-drafted_as (some result) = refl

drafted_inv :
    {quote : QuoteRow} {rows : List LineRow} (o : Option (QuoteRow × List LineRow))
    → drafted_as o ≡ drafted quote rows
    → o ≡ some (quote, rows)
drafted_inv o e = result_of-drafted_as o ∙ ap result_of e

-- When the lines of a draft are generated, the lines with an opening are, in order and numbered from 1,
-- one for each opening of the project and, below it, one for each resolved component of its
-- hardware group, and each one without an item of the catalogue is flagged for review; every
-- line without an opening is kept but for its priced columns, with at most one line more, while a line
-- with an opening is not kept, whoever added it; there is a freight line; the quote is as before but
-- for its totals.
pub generate_lines-IsDraftOf :
    (env : Env) (project : Project) (replace : Bool) (quote quote' : QuoteRow)
    (rows rows' : List LineRow)
    → generate_lines env project replace quote rows ≡ drafted quote' rows'
    → IsDraftOf project rows rows' × (quote' ≡ record quote { totals = quote'.totals })
unfolding generate_lines
generate_lines-IsDraftOf env project replace quote quote' rows rows' e =
    let lines = draft_lines env project quote rows in
    let done : assemble_rows env quote lines ≡ some (quote', rows') =
      elim (Bool-cases (is_draft quote.status)) [
        | inr closed ↦ absurd (let stuck = rw closed at e in cc)
        | inl opened ↦ elim (Bool-cases (any is_generated rows && not replace)) [
          | inl made ↦ absurd (let stuck = rw (opened, made) at e in cc)
          | inr free ↦ drafted_inv (assemble_rows env quote lines) (rw (opened, free) at e)
        ]
      ] in
    let assembled = assemble_rows-IsAssembled env quote quote' lines rows' done in
    (draft_lines-IsDraftOf env project quote rows rows' assembled.lines, assembled.rest)
