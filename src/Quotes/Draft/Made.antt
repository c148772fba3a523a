-- ===== src/Quotes/Draft/Made.antt =====
-- The rows that the loops of the draft make, before they are priced (generate_lines of
-- backend/api/quotes/draft_ops.py).
use cbc_new.Prelude.{
  ℕ, zero, suc, ◌+◌, ◌≤◌, ◌≡◌, refl, sym, ◌∙◌, ap, Bool, true, false, not, Option, none, some, List,
  [], ◌∷◌, ◌++◌, map, keep, length, length-append, any, All-keep, All-impl, is_some, arith,
  Bool-cases, inl, inr, All,
}
use cbc_new.Pricing.Line.{is_freight}
use cbc_new.Quotes.{QuoteRow, LineRow, Env}
use cbc_new.Quotes.Draft.{
  DraftItem, DraftOpening, DraftMatch, DraftComponent, Project, best_match, matches_of,
  components_of, create_line, component_lines, opening_line, opening_lines, is_generated,
  is_freight_row, ensure_freight_line, freight_line, draft_lines, item_of, priced_item_of,
}
use cbc_new.Prelude.Members.{keep-append}
use cbc_new.Quotes.Draft.Rows.{
  keep-All, keep_none, keep-keep-not, any-append, map-append, All-append_of,
}

-- What a line is for: its opening, and the hardware component of it if it is for one.
abbrev pub purpose : LineRow → Option ℕ × Option ℕ
purpose row = (row.opening, row.hardware_component)

-- What the openings of a project want: a line for each, and below it one for each component.
unfoldable pub wanted : Project → List DraftOpening → List (Option ℕ × Option ℕ)
wanted project [] = []
wanted project (o ∷ os) =
    ((some o.id, none) ∷ map (λ c. (some o.id, some c.id)) (components_of project o))
    ++ wanted project os

abbrev pub count_up : ℕ → ℕ → List ℕ
count_up start zero = []
count_up start (suc n) = suc start ∷ count_up (suc start) n

-- A generated line without an item of the catalogue is flagged.
abbrev pub IsFlagged : LineRow → Type 0
IsFlagged row =
    is_generated row ≡ true → row.priced.catalog_item ≡ none → row.priced.needs_review ≡ true

-- The lines that a generation leaves alone. A line that a user adds for an opening is not one of them.
abbrev pub without_opening : List LineRow → List LineRow
without_opening = keep (λ row. not (is_generated row))

count_up-add : (start m n : ℕ) → count_up start (m + n) ≡ count_up start m ++ count_up (start + m) n
count_up-add start zero n =
    let left : 0 + n ≡ n = omega arith in
    let right : start + 0 ≡ start = omega arith in rw (left, right) refl
count_up-add start (suc m) n =
    let left : suc m + n ≡ suc (m + n) = omega arith in
    let right : start + suc m ≡ suc start + m = omega arith in
    rw (left, right) (ap (λ l. suc start ∷ l) (count_up-add (suc start) m n))

append_nil : (rows : List LineRow) → rows ++ [] ≡ rows
append_nil [] = refl
append_nil (row ∷ rows) = ap (λ l. row ∷ l) (append_nil rows)

module _ (env : Env) (project : Project) where
  create_line-IsFlagged :
      (o : DraftOpening) (m : Option DraftMatch) (c : Option DraftComponent) (order : ℕ)
      → IsFlagged (create_line env o m c order)
  unfolding create_line
  create_line-IsFlagged o m c order g e = unmatched (item_of m) e
    where
      unmatched : (item : Option DraftItem) → priced_item_of item ≡ none → not (is_some item) ≡ true
      unmatched none e = refl
      unmatched (some item) e = absurd cc

  create_line_generated :
      (o : DraftOpening) (m : Option DraftMatch) (c : Option DraftComponent) (order : ℕ)
      → is_generated (create_line env o m c order) ≡ true
  unfolding create_line
  create_line_generated o m c order = refl

  component_lines-All :
      (P : LineRow → Type 0) (o : DraftOpening) (order : ℕ) (cs : List DraftComponent)
      → ((m : Option DraftMatch) (c : Option DraftComponent) (n : ℕ) → P (create_line env o m c n))
      → All P (component_lines env project o order cs)
  unfolding component_lines
  component_lines-All P o order [] h = tt
  component_lines-All P o order (c ∷ cs) h = (
    h (best_match (matches_of project o (some c.id))) (some c) (suc order),
    component_lines-All P o (suc order) cs h,
  )

  opening_lines-All :
      (P : LineRow → Type 0) (order : ℕ) (os : List DraftOpening)
      → ((o : DraftOpening) (m : Option DraftMatch) (c : Option DraftComponent) (n : ℕ)
          → P (create_line env o m c n))
      → All P (opening_lines env project order os)
  unfolding opening_lines opening_line
  opening_lines-All P order [] h = tt
  opening_lines-All P order (o ∷ os) h =
      let cs = components_of project o in
      (
        h o (best_match (matches_of project o none)) none (suc order),
        All-append_of P (component_lines env project o (suc order) cs)
            (opening_lines env project (suc order + length cs) os)
            (component_lines-All P o (suc order) cs (h o))
            (opening_lines-All P (suc order + length cs) os h),
      )

  component_lines_purposes :
      (o : DraftOpening) (order : ℕ) (cs : List DraftComponent)
      → map purpose (component_lines env project o order cs) ≡ map (λ c. (some o.id, some c.id)) cs
  unfolding component_lines create_line
  component_lines_purposes o order [] = refl
  component_lines_purposes o order (c ∷ cs) =
      ap (λ l. (some o.id, some c.id) ∷ l) (component_lines_purposes o (suc order) cs)

  pub opening_lines_purposes :
      (order : ℕ) (os : List DraftOpening)
      → map purpose (opening_lines env project order os) ≡ wanted project os
  unfolding opening_lines opening_line create_line wanted
  opening_lines_purposes order [] = refl
  opening_lines_purposes order (o ∷ os) =
      let cs = components_of project o in
      let below = component_lines env project o (suc order) cs in
      let later = opening_lines env project (suc order + length cs) os in
      ap (λ l. (some o.id, none) ∷ l)
        (map-append purpose below later
          ∙ (ap (λ l. l ++ map purpose later) (component_lines_purposes o (suc order) cs)
              ∙ ap (λ l. map (λ c. (some o.id, some c.id)) cs ++ l)
                  (opening_lines_purposes (suc order + length cs) os)))

  component_lines_numbers :
      (o : DraftOpening) (order : ℕ) (cs : List DraftComponent)
      → map (λ row. row.line_order) (component_lines env project o order cs)
        ≡ count_up order (length (component_lines env project o order cs))
  unfolding component_lines create_line
  component_lines_numbers o order [] = refl
  component_lines_numbers o order (c ∷ cs) =
      ap (λ l. suc order ∷ l) (component_lines_numbers o (suc order) cs)

  length-component_lines :
      (o : DraftOpening) (order : ℕ) (cs : List DraftComponent)
      → length (component_lines env project o order cs) ≡ length cs
  unfolding component_lines
  length-component_lines o order [] = refl
  length-component_lines o order (c ∷ cs) = ap suc (length-component_lines o (suc order) cs)

  pub opening_lines_numbers :
      (order : ℕ) (os : List DraftOpening)
      → map (λ row. row.line_order) (opening_lines env project order os)
        ≡ count_up order (length (opening_lines env project order os))
  unfolding opening_lines opening_line create_line
  opening_lines_numbers order [] = refl
  opening_lines_numbers order (o ∷ os) =
      let cs = components_of project o in
      let below = component_lines env project o (suc order) cs in
      let later = opening_lines env project (suc order + length cs) os in
      let there : map (λ row. row.line_order) later
          ≡ count_up (suc order + length below) (length later) =
        rw (length-component_lines o (suc order) cs)
          (opening_lines_numbers (suc order + length cs) os) in
      ap (λ l. suc order ∷ l)
        (map-append (λ row. row.line_order) below later
          ∙ (rw (component_lines_numbers o (suc order) cs, there, length-append below later)
              (sym (count_up-add (suc order) (length below) (length later)))))

  pub made_rows :
      (quote : QuoteRow) (rows : List LineRow)
      → keep is_generated (draft_lines env project quote rows)
        ≡ opening_lines env project 0 project.openings
  unfolding draft_lines ensure_freight_line freight_line
  made_rows quote rows =
      let made = opening_lines env project 0 project.openings in
      let generated =
        opening_lines-All (λ row. is_generated row ≡ true) 0 project.openings
          create_line_generated in
      let both : keep is_generated (without_opening rows ++ made) ≡ made =
        keep-append is_generated (without_opening rows) made
        ∙ rw (keep-keep-not is_generated rows) (keep-All is_generated made generated) in
      elim (Bool-cases (any is_freight_row (without_opening rows ++ made))) [
        | inl there ↦ rw there both
        | inr missing ↦ rw missing (
            keep-append is_generated (without_opening rows ++ made)
              (freight_line env quote (suc (length made)) ∷ [])
            ∙ (append_nil (keep is_generated (without_opening rows ++ made)) ∙ both))
      ]

  pub kept_rows :
      (quote : QuoteRow) (rows : List LineRow)
      → (added : List LineRow) × (length added ≤ 1)
        × (without_opening (draft_lines env project quote rows) ≡ without_opening rows ++ added)
  unfolding draft_lines ensure_freight_line freight_line
  kept_rows quote rows =
      let made = opening_lines env project 0 project.openings in
      let hand = without_opening rows in
      let test : LineRow → Bool = λ row. not (is_generated row) in
      let generated =
        opening_lines-All (λ row. is_generated row ≡ true) 0 project.openings
          create_line_generated in
      let not_made =
        All-impl (λ row. is_generated row ≡ true) (λ row. test row ≡ false) made
          (λ row h. rw h refl) generated in
      let both : keep test (hand ++ made) ≡ hand =
        keep-append test hand made
        ∙ rw (keep_none test made not_made, keep-All test hand (All-keep test rows))
            (append_nil hand) in
      let line = freight_line env quote (suc (length made)) in
      elim (Bool-cases (any is_freight_row (hand ++ made))) [
        | inl there ↦ ([], ground arith, rw there (both ∙ sym (append_nil hand)))
        | inr missing ↦ (
          line ∷ [],
          ground arith,
          rw missing
              (keep-append test (hand ++ made) (line ∷ []) ∙ ap (λ l. l ++ (line ∷ [])) both),
        )
      ]

  pub freight_row :
      (quote : QuoteRow) (rows : List LineRow)
      → any is_freight_row (draft_lines env project quote rows) ≡ true
  unfolding draft_lines ensure_freight_line freight_line is_freight
  freight_row quote rows =
      let made = opening_lines env project 0 project.openings in
      let line = freight_line env quote (suc (length made)) in
      elim (Bool-cases (any is_freight_row (without_opening rows ++ made))) [
        | inl there ↦ rw there there
        | inr missing ↦
            rw missing (
              any-append is_freight_row (without_opening rows ++ made) (line ∷ [])
              ∙ rw missing refl)
      ]

  pub IsFlagged-rows :
      (quote : QuoteRow) (rows : List LineRow) → All IsFlagged (draft_lines env project quote rows)
  unfolding draft_lines ensure_freight_line freight_line
  IsFlagged-rows quote rows =
      let made = opening_lines env project 0 project.openings in
      let line = freight_line env quote (suc (length made)) in
      let hand : All IsFlagged (without_opening rows) =
        All-impl (λ row. not (is_generated row) ≡ true) IsFlagged (without_opening rows)
          (λ row h g. absurd (let shut = rw g at h in cc))
          (All-keep (λ row. not (is_generated row)) rows) in
      let both =
        All-append_of IsFlagged (without_opening rows) made hand
          (opening_lines-All IsFlagged 0 project.openings create_line-IsFlagged) in
      elim (Bool-cases (any is_freight_row (without_opening rows ++ made))) [
        | inl there ↦ rw there both
        | inr missing ↦ rw missing (
            All-append_of IsFlagged (without_opening rows ++ made) (line ∷ []) both
              ((λ g. absurd cc), tt))
      ]
