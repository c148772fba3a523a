-- ===== src/Pages/Manifest.antt =====
-- write_manifest of backend/pipeline/db/repository.py: one row for each page, where a route that an
-- estimator forced survives. The keys of the rasters and the measurements of a page that are only
-- copied are left out.

use cbc_new.Prelude.{
  ℕ, ◌≡◌, refl, ◌∙◌, ◌||◌, Bool, true, false, Option, none, some, List, [], ◌∷◌, length,
  if◌then◌else◌, ◌==◌, ==_iff, Bool-cases, inl, inr, All, All-impl,
}
use cbc_new.Prelude.Text.{Text}
use cbc_new.Prelude.Int.{ℤ, pos, ◌+ℤ◌}
use cbc_new.Pages.{OcrRoute, Probe, PageRow}

-- A forced route, its reason and the user who forced it.
abbrev pub Forced : Type 0
Forced = OcrRoute × Text × ℕ

abbrev later_or : Option Forced → Option Forced → Option Forced
later_or none first = first
later_or (some later) first = some later

abbrev pub forced_row : ℕ → PageRow → Option ℕ → Option Forced
forced_row page row none = none
forced_row page row (some user) =
    if row.page_number == page then some (row.ocr_route, row.route_reason, user) else none

-- `forced.get(page)`: of two rows for one page, the later one counts.
unfoldable pub forced_for : ℕ → List PageRow → Option Forced
forced_for page [] = none
forced_for page (row ∷ rows) =
    later_or (forced_for page rows) (forced_row page row row.forced_by_user)

unfoldable pub manifest_row : Probe → Option Forced → PageRow
manifest_row probe none = record {
  page_number = probe.page_number;
  page_hash = probe.page_hash;
  ocr_route = probe.ocr_route;
  route_reason = probe.route_reason;
  forced_by_user = none;
  ocr_cost_estimate = probe.ocr_cost_estimate;
}
manifest_row probe (some (route, reason, user)) = record {
  page_number = probe.page_number;
  page_hash = probe.page_hash;
  ocr_route = route;
  route_reason = reason;
  forced_by_user = some user;
  ocr_cost_estimate = probe.ocr_cost_estimate;
}

unfoldable pub manifest_rows : List PageRow → List Probe → List PageRow
manifest_rows old [] = []
manifest_rows old (probe ∷ probes) =
    manifest_row probe (forced_for probe.page_number old) ∷ manifest_rows old probes

unfoldable pub estimate : List Probe → ℤ
estimate [] = pos 0
estimate (probe ∷ probes) = probe.ocr_cost_estimate +ℤ estimate probes

-- The manifest of a document, with the columns of the document that go with it.
pub record Manifest : Type 0 where
  pub rows : List PageRow
  pub page_count : ℕ
  pub manifest_complete : Bool
  pub estimated_ocr_cost_usd : ℤ

unfoldable pub write_manifest : List Probe → Manifest → Manifest
write_manifest probes manifest =
    let rows = manifest_rows manifest.rows probes in
    record {
      rows = rows;
      page_count = length rows;
      manifest_complete = true;
      estimated_ocr_cost_usd = estimate probes;
    }

-- The document has a page of this number.
abbrev pub is_probed : ℕ → List Probe → Bool
is_probed page [] = false
is_probed page (probe ∷ probes) = (probe.page_number == page) || is_probed page probes

forced_of_row :
    (page : ℕ) (probe : Probe) (f : Option Forced)
    → forced_row page (manifest_row probe f) (manifest_row probe f).forced_by_user
      ≡ (if probe.page_number == page then f else none)
unfolding manifest_row
forced_of_row page probe none = elim (Bool-cases (probe.page_number == page)) [
  | inl same ↦ rw same refl
  | inr other ↦ rw other refl
]
forced_of_row page probe (some f) = refl

later_or_same : (f : Option Forced) → later_or f f ≡ f
later_or_same none = refl
later_or_same (some f) = refl

later_or-none : (f : Option Forced) → later_or f none ≡ f
later_or-none none = refl
later_or-none (some f) = refl

-- A page whose route an estimator forced keeps that route, its reason and its user, when the
-- manifest is written again for probes that have the page; and no other page becomes forced.
pub forced_survives :
    (old : List PageRow) (probes : List Probe) (page : ℕ)
    → forced_for page (manifest_rows old probes)
      ≡ (if is_probed page probes then forced_for page old else none)
unfolding forced_for manifest_rows
forced_survives old [] page = refl
forced_survives old (probe ∷ probes) page =
    let f = forced_for probe.page_number old in
    let later = forced_survives old probes page in
    let here = forced_of_row page probe f in
    elim (Bool-cases (probe.page_number == page)) [
      | inr other ↦ rw (here, later, other) (later_or-none _)
      | inl same ↦
          let number : probe.page_number ≡ page = (==_iff probe.page_number page).0 same in
          elim (Bool-cases (is_probed page probes)) [
            | inl again ↦
                rw (here, later, same, again, number) (later_or_same (forced_for page old))
            | inr once ↦ rw (here, later, same, once, number) refl
          ]
    ]

manifest_rows_agree :
    (old new : List PageRow) (probes : List Probe)
    → All (λ q. forced_for q.page_number new ≡ forced_for q.page_number old) probes
    → manifest_rows new probes ≡ manifest_rows old probes
unfolding manifest_rows
manifest_rows_agree old new [] h = refl
manifest_rows_agree old new (probe ∷ probes) h =
    rw (h.0, manifest_rows_agree old new probes h.1) refl

probed_here : (page : ℕ) → (page == page) ≡ true
probed_here page = (==_iff page page).1 refl

All-probed :
    (before probes : List Probe)
    → ((page : ℕ) → is_probed page probes ≡ true → is_probed page before ≡ true)
    → All (λ q. is_probed q.page_number before ≡ true) probes
All-probed before [] h = tt
All-probed before (probe ∷ probes) h = (
  h probe.page_number (rw (probed_here probe.page_number) refl),
  All-probed before probes (λ page k. h page (rw k (or_true (probe.page_number == page)))),
)
  where
    or_true : (b : Bool) → (b || true) ≡ true
    or_true true = refl
    or_true false = refl

-- Writing the manifest a second time from the same probes changes nothing.
pub write_manifest-again :
    (probes : List Probe) (m : Manifest)
    → write_manifest probes (write_manifest probes m) ≡ write_manifest probes m
unfolding write_manifest
write_manifest-again probes m =
    let kept : All
        (λ q.
          forced_for q.page_number (manifest_rows m.rows probes) ≡ forced_for q.page_number m.rows)
        probes =
      All-impl (λ q. is_probed q.page_number probes ≡ true)
        (λ q.
          forced_for q.page_number (manifest_rows m.rows probes) ≡ forced_for q.page_number m.rows)
        probes (λ q k. forced_survives m.rows probes q.page_number ∙ rw k refl)
        (All-probed probes probes (λ page k. k)) in
    rw (manifest_rows_agree m.rows (manifest_rows m.rows probes) probes kept) refl
