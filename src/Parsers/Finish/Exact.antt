-- ===== src/Parsers/Finish/Exact.antt =====
-- A finish is looked up exactly (backend/pipeline/parsers/finish.py).
use mathlib.Core.List.{Memᴰ}
use mathlib.Core.Path.{subst}
use cbc_new.Prelude.{
  ◌≡◌, ◌⊎◌, ◌↔◌, refl, sym, ◌∙◌, ap, Bool, true, false, Option, none, some, List, [], ◌∷◌, is_some,
  if◌then◌else◌, Bool-cases, inl, inr,
}
use cbc_new.Prelude.Text.{Text, is_blank, text_eq, text_eq_iff, text_eq_refl}
use cbc_new.Parsers.Finish.{
  FinishCode, ParsedFinish, normalise_token, get, put, load_from, load_lookup, finish_of,
  parse_finish,
}

get-put :
    {V : Type 0} (key other : Text) (new : V) (table : List (Text × V))
    → get other (put key new table) ≡ (if text_eq key other then some new else get other table)
unfolding get put
get-put key other new [] = refl
get-put key other new ((name, value) ∷ table) = elim (Bool-cases (text_eq name key)) [
  | inl same ↦
      let e : name ≡ key = (text_eq_iff name key).0 same in
      rw same (rw e (split (text_eq key other)))
  | inr differs ↦ rw differs (elim (Bool-cases (text_eq name other)) [
    | inl found ↦
        let e : name ≡ other = (text_eq_iff name other).0 found in
        let apart : text_eq key other ≡ false =
          not_same key other (λ k. absurd (let s = (text_eq_iff name key).1 (e ∙ sym k) in cc)) in
        rw (found, apart) refl
    | inr missed ↦ rw missed (get-put key other new table)
  ])
]
  where
    split :
        (b : Bool)
        → (if b then some new else get other table)
          ≡ (if b then some new else (if b then some value else get other table))
    split true = refl
    split false = refl

    not_same : (a b : Text) → (a ≡ b → ⊥) → text_eq a b ≡ false
    not_same a b h = elim (Bool-cases (text_eq a b)) [
      | inl same ↦ absurd (h ((text_eq_iff a b).0 same))
      | inr other ↦ other
    ]

-- The row is one of those loaded, and one of its two codes is the key.
abbrev pub IsRowOf : List FinishCode → Text → FinishCode → Type 0
IsRowOf rows key row =
    Memᴰ row rows × ((normalise_token row.us_code ≡ key) ⊎ (normalise_token row.bhma_code ≡ key))

abbrev AllGot : (Text → FinishCode → Type 0) → List (Text × FinishCode) → Type 0
AllGot P table = (key : Text) (row : FinishCode) → get key table ≡ some row → P key row

put-AllGot :
    (P : Text → FinishCode → Type 0) (key : Text) (new : FinishCode)
    (table : List (Text × FinishCode))
    → P key new
    → AllGot P table
    → AllGot P (put key new table)
put-AllGot P key new table h all other row e = elim (Bool-cases (text_eq key other)) [
  | inl same ↦
      let at_key : key ≡ other = (text_eq_iff key other).0 same in
      let here : some new ≡ some row = rw (get-put key other new table, same) at e in
      let is_new : new ≡ row = cc in subst (λ k. P k row) at_key (subst (λ r. P key r) is_new h)
  | inr differs ↦ all other row (rw (get-put key other new table, differs) at e)
]

load_from-AllGot :
    (P : Text → FinishCode → Type 0) (table : List (Text × FinishCode)) (rows : List FinishCode)
    → ((row : FinishCode)
        → Memᴰ row rows
        → P (normalise_token row.us_code) row × P (normalise_token row.bhma_code) row)
    → AllGot P table
    → AllGot P (load_from table rows)
unfolding load_from
load_from-AllGot P table [] each all = all
load_from-AllGot P table (row ∷ rows) each all =
    let (us, bhma) = each row (Memᴰ.head refl) in
    let once = put (normalise_token row.us_code) row table in
    load_from-AllGot P (put (normalise_token row.bhma_code) row once) rows
      (λ other listed. each other (Memᴰ.tail listed))
      (put-AllGot P (normalise_token row.bhma_code) row once bhma
        (put-AllGot P (normalise_token row.us_code) row table us all))

get-load_lookup : (rows : List FinishCode) → AllGot (IsRowOf rows) (load_lookup rows)
unfolding load_lookup get
get-load_lookup rows =
    load_from-AllGot (IsRowOf rows) [] rows (λ row listed. ((listed, inl refl), (listed, inr refl)))
      (λ key row e. absurd cc)

put_keeps :
    (key other : Text) (new : FinishCode) (table : List (Text × FinishCode))
    → is_some (get other table) ≡ true
    → is_some (get other (put key new table)) ≡ true
put_keeps key other new table h = elim (Bool-cases (text_eq key other)) [
  | inl same ↦ rw (get-put key other new table, same) refl
  | inr differs ↦ rw (get-put key other new table, differs) h
]

put_here :
    (key : Text) (new : FinishCode) (table : List (Text × FinishCode))
    → is_some (get key (put key new table)) ≡ true
put_here key new table = rw (get-put key key new table, text_eq_refl key) refl

load_from_keeps :
    (key : Text) (table : List (Text × FinishCode)) (rows : List FinishCode)
    → is_some (get key table) ≡ true
    → is_some (get key (load_from table rows)) ≡ true
unfolding load_from
load_from_keeps key table [] h = h
load_from_keeps key table (row ∷ rows) h =
    let once = put (normalise_token row.us_code) row table in
    load_from_keeps key (put (normalise_token row.bhma_code) row once) rows (
      put_keeps (normalise_token row.bhma_code) key row once
        (put_keeps (normalise_token row.us_code) key row table h))

load_from_has :
    (table : List (Text × FinishCode)) (rows : List FinishCode) (key : Text) (row : FinishCode)
    → Memᴰ row rows
    → (normalise_token row.us_code ≡ key) ⊎ (normalise_token row.bhma_code ≡ key)
    → is_some (get key (load_from table rows)) ≡ true
unfolding load_from
load_from_has table [] key row m h = elim m [ ]
load_from_has table (r ∷ rows) key row (Memᴰ.tail m) h =
    load_from_has (put (normalise_token r.bhma_code) r (put (normalise_token r.us_code) r table))
      rows key row m h
load_from_has table (r ∷ rows) key row (Memᴰ.head e) h =
    let once = put (normalise_token r.us_code) r table in
    let twice = put (normalise_token r.bhma_code) r once in
    load_from_keeps key twice rows (elim h [
      | inl us ↦
          let k : normalise_token r.us_code ≡ key =
            ap (λ x. normalise_token x.us_code) (sym e) ∙ us in
          put_keeps (normalise_token r.bhma_code) key r once (
            subst (λ x. is_some (get x once) ≡ true) k
              (put_here (normalise_token r.us_code) r table))
      | inr bhma ↦
          let k : normalise_token r.bhma_code ≡ key =
            ap (λ x. normalise_token x.bhma_code) (sym e) ∙ bhma in
          subst (λ x. is_some (get x twice) ≡ true) k
            (put_here (normalise_token r.bhma_code) r once)
    ])

load_has :
    (rows : List FinishCode) (raw : Text) (row : FinishCode)
    → IsRowOf rows (normalise_token raw) row
    → is_some (get (normalise_token raw) (load_lookup rows)) ≡ true
unfolding load_lookup
load_has rows raw row k = load_from_has [] rows (normalise_token raw) row k.0 k.1

-- What a finish resolves to, among the rows of the table: a row one of whose two codes is the raw
-- text, but for case and punctuation; and it is flagged only where it is blank or no row has it.
pub record IsExact (rows : List FinishCode) (raw : Text) (p : ParsedFinish) : Type 0 where
  pub sound : (row : FinishCode) → p.code ≡ some row → IsRowOf rows (normalise_token raw) row
  pub complete :
      is_blank raw ≡ false
      → (row : FinishCode) → IsRowOf rows (normalise_token raw) row
      → p.needs_review ≡ false
  pub honest : (p.needs_review ≡ true) ↔ (p.code ≡ none)

finish_honest :
    (o : Option FinishCode) → ((finish_of o).needs_review ≡ true) ↔ ((finish_of o).code ≡ none)
finish_honest none = ((λ h. refl), λ h. refl)
finish_honest (some row) = ((λ h. absurd cc), λ h. absurd cc)

finish_sound :
    (o : Option FinishCode) (row : FinishCode) → (finish_of o).code ≡ some row → o ≡ some row
finish_sound none row h = h
finish_sound (some r) row h = h

finish_found : (o : Option FinishCode) → is_some o ≡ true → (finish_of o).needs_review ≡ false
finish_found none h = absurd cc
finish_found (some row) h = refl

-- A finish resolves exactly: the row it resolves to is in the table, and its US code or its BHMA
-- code is the raw text but for case and punctuation; a text that is not blank and is a code of some
-- row is resolved; and a finish is flagged just when it is not resolved.
pub parse_finish-IsExact :
    (rows : List FinishCode) (raw : Text)
    → IsExact rows raw (parse_finish (some raw) (load_lookup rows))
unfolding parse_finish
parse_finish-IsExact rows raw = elim (Bool-cases (is_blank raw)) [
  | inl blank ↦ rw blank (record {
    sound = λ row e. absurd cc;
    complete = λ h row k. absurd (let s = rw blank at h in cc);
    honest = ((λ h. refl), λ h. refl);
  })
  | inr filled ↦ rw filled (record {
    sound = λ row e.
        get-load_lookup rows (normalise_token raw) row
          (finish_sound (get (normalise_token raw) (load_lookup rows)) row e);
    complete = λ h row k.
        finish_found (get (normalise_token raw) (load_lookup rows)) (load_has rows raw row k);
    honest = finish_honest (get (normalise_token raw) (load_lookup rows));
  })
]
