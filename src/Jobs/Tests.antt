-- ===== src/Jobs/Tests.antt =====
-- Runs of the handlers, and their theorems at inputs.
use cbc_new.Prelude.{◌≡◌, ◌≤◌, refl, false, none, some, List, ◌∷◌, [], length}
use cbc_new.Prelude.Text.{codes, is_listed}
use cbc_new.Prelude.Int.{pos, ◌+ℤ◌}
use cbc_new.Pages.{textract_tables, skip, Probe}
use cbc_new.Pages.Manifest.{forced_for, manifest_row, manifest_rows, estimate, write_manifest}
use cbc_new.Jobs.{
  extract, failed, ready_for_processing, processed, processing, config_error, other_error, DocState,
}
use cbc_new.Jobs.Extraction.{Stages, run_price, run_match, run_tables, run_extraction}
use cbc_new.Jobs.Coordinator.{
  World, settle, extract_and_link, normalise_document, subset_route, submit_pages, submit_ocr,
  triage, triage_failed, run_triage, handle_document_ready, succeeded, unsuccessful,
  handle_textract_completed,
}
use cbc_new.Jobs.Ends.{Ends}
use cbc_new.Jobs.Extracted.{status_of}
use cbc_new.Jobs.Settled.{IsHandled, textract_settles}
use cbc_new.Jobs.Billing.{
  Delivery, document_ready, textract_completed, deliver, deliver_all, submitted_once,
}

runs : Unit {0}
unfolding is_listed ◌+ℤ◌ forced_for manifest_row manifest_rows estimate write_manifest run_price
    run_match run_tables run_extraction settle extract_and_link normalise_document subset_route
    submit_pages submit_ocr triage triage_failed run_triage handle_document_ready
    handle_textract_completed deliver deliver_all
runs = tt

abbrev stages : Stages
stages = record {
  prepared = none;
  batched = none;
  no_tables = false;
  extracted = none;
  linked = none;
  matched = none;
  priced = none;
}

abbrev schedule : Probe
schedule = record {
  page_number = 2;
  page_hash = codes "ab";
  ocr_route = textract_tables;
  route_reason = [];
  ocr_cost_estimate = pos 150;
}

abbrev world : World
world = record {
  triaged = none;
  probes = schedule ∷ [];
  ocr_key = λ route. 8;
  offline = false;
  synthesized = none;
  cut = none;
  refused = none;
  job_id = 900;
  fetched = none;
  normalised = none;
  stages = stages;
}

abbrev new_document : DocState
new_document = record {
  status = ready_for_processing;
  status_detail = [];
  jobs = λ stage. none;
  manifest = record {
    rows = [];
    page_count = 0;
    manifest_complete = false;
    estimated_ocr_cost_usd = pos 0;
  };
  submissions = [];
}

abbrev delivered_twice : List Delivery
delivered_twice =
    document_ready (some 7) (record world { cut = some (other_error (codes "storage")) })
    ∷ document_ready (some 7) world
    ∷ document_ready (some 7) (record world { job_id = 901 })
    ∷ textract_completed succeeded world
    ∷ []

reaches_the_end : (deliver_all delivered_twice new_document).status ≡ processed
unfolding runs
reaches_the_end = refl

-- A failed Textract job stays the job of the document: a later delivery resumes it.
resumes_a_failed_job :
    (deliver_all
      (document_ready none world
        ∷ textract_completed (unsuccessful (codes "FAILED")) world
        ∷ document_ready none (record world { job_id = 901 })
        ∷ [])
      new_document).submissions
    ≡ 900 ∷ []
unfolding runs
resumes_a_failed_job = refl

-- A document without a page for Textract is left processing, with OCR skipped.
stays_processing :
    (deliver_all
      (document_ready none (record world { probes = record schedule { ocr_route = skip } ∷ [] })
        ∷ [])
      new_document).status
    ≡ processing
unfolding runs
stays_processing = refl

-- A pricing that fails marks EXTRACT as failed too, and leaves the document processing.
blames_extraction :
    let s =
      deliver_all
        (document_ready none world
          ∷ textract_completed succeeded
              (record world { stages = record stages { priced = some (other_error []) } })
          ∷ [])
        new_document in
    (s.status ≡ processing) × (status_of (s.jobs extract) ≡ some failed)
unfolding runs
blames_extraction = (refl, refl)

submitted_once_example : length (deliver_all delivered_twice new_document).submissions ≤ 1
submitted_once_example = submitted_once delivered_twice new_document refl

abbrev submitted : DocState
submitted = deliver (document_ready none world) new_document

abbrev unset : World
unset = record world {
  stages = record stages { prepared = some (config_error (codes "no model")) };
}

textract_settles_example :
    Ends
      (λ u. IsHandled succeeded)
      (λ t. t.status ≡ processing)
      (handle_textract_completed succeeded unset submitted)
unfolding runs
textract_settles_example = textract_settles succeeded unset submitted
