-- ===== src/Jobs/Coordinator.antt =====
-- The handlers of backend/pipeline/coordinator.py, and `submit` of stages/ocr.py.
use cbc_new.Prelude.{
  ℕ, Bool, true, false, String, Option, some, none, List, [], ◌∷◌, ◌++◌, any, if◌then◌else◌, take,
}
use cbc_new.Prelude.Text.{Text, codes, is_listed}
use cbc_new.Pages.{OcrRoute, textract_tables, textract_text, Probe, PageRow}
use cbc_new.Pages.Manifest.{write_manifest}
use cbc_new.Jobs.{
  Stage, preprocess, ocr, normalize, extract, link, JobStatus, completed, failed, quarantined,
  skipped, processing, processed, doc_failed, doc_quarantined, ExternalId, fake_ocr, textract, Job,
  Exception, encrypted_document, budget_exceeded, document_too_large, table_budget_exceeded,
  config_error, client_error, text_of, Action, bind, give, handle, throw, and_then, write, work,
}
use cbc_new.Jobs.Repository.{
  get_or_create_job, change_job, start_job, complete_job, fail_job, record_external_job_id,
  set_document_status,
}
use cbc_new.Jobs.Extraction.{Stages, open_job, fail_with, run_extraction}

-- What the work of a handler ends in, beside the stages of the extraction: the triage with its
-- probes, the key of the OCR job for each feature set, the offline loop and its setting, the subset
-- with its limits, the answer of Textract with the identifier of the job, the fetch, and the blocks.
pub record World : Type 0 where
  pub triaged : Option Exception
  pub probes : List Probe
  pub ocr_key : Option OcrRoute → ℕ
  pub offline : Bool
  pub synthesized : Option Exception
  pub cut : Option Exception
  pub refused : Option Exception
  pub job_id : ℕ
  pub fetched : Option Exception
  pub normalised : Option Exception
  pub stages : Stages

abbrev pub transient_bedrock_errors : List String
transient_bedrock_errors =
    "ThrottlingException" ∷ "TooManyRequestsException" ∷ "ServiceUnavailableException"
    ∷ "ServiceQuotaExceededException" ∷ "ModelTimeoutException" ∷ "ModelNotReadyException"
    ∷ "InternalServerException" ∷ "RequestTimeout" ∷ []

abbrev pub is_completed : JobStatus → Bool
is_completed completed = true
is_completed _ = false

abbrev pub is_done : JobStatus → Bool
is_done completed = true
is_done skipped = true
is_done _ = false

abbrev pub mark_stage : JobStatus → Text → Stage → Action (Unit {0})
mark_stage status detail stage = bind (get_or_create_job stage none) (λ job.
    if is_completed job.status
    then give tt
    else change_job stage (λ old. record old { status = status; error_detail = take 4000 detail }))

abbrev pub mark : JobStatus → Text → Action (Unit {0})
mark status detail = and_then (mark_stage status detail extract) (mark_stage status detail link)

-- The handlers of the exceptions of an extraction: `true` says that the document is settled.
unfoldable pub settle : Exception → Action Bool
settle (config_error t) = and_then (mark skipped t) (give false)
settle (table_budget_exceeded t) =
    and_then (mark quarantined t) (and_then (set_document_status doc_quarantined t) (give true))
settle (client_error code t) =
    if is_listed code transient_bedrock_errors
    then throw (client_error code t)
    else let detail = code ++ (codes ": " ++ t) in
      and_then (mark failed detail) (and_then (set_document_status doc_failed detail) (give true))
settle e = throw e

unfoldable pub extract_and_link : Stages → Action Bool
unfolding settle run_extraction
extract_and_link w = handle (and_then (run_extraction w) (give false)) settle

unfoldable pub normalise_document : World → Action (Unit {0})
unfolding extract_and_link
normalise_document w = and_then (open_job normalize) (
    and_then (handle (and_then (work w.normalised) (complete_job normalize)) (fail_with normalize))
      (bind (extract_and_link w.stages)
        (λ settled. if settled then give tt else set_document_status processed [])))

-- The route of the subset: tables where any page needs them.
abbrev pub has_route : OcrRoute → PageRow → Bool
has_route textract_tables row = elim (row.ocr_route) [ textract_tables ↦ true | _ ↦ false ]
has_route textract_text row = elim (row.ocr_route) [ textract_text ↦ true | _ ↦ false ]
has_route _ row = false

unfoldable pub subset_route : List PageRow → Option OcrRoute
subset_route rows =
    if any (has_route textract_tables) rows
    then some textract_tables
    else if any (has_route textract_text) rows
    then some textract_text
    else none

-- A Textract job is started, unless the row has one already.
abbrev pub submit : World → Option ExternalId → Action ExternalId
submit w (some id) = give id
submit w none = and_then (work w.refused) (
    and_then (write (λ s. record s { submissions = w.job_id ∷ s.submissions }))
      (give (textract w.job_id)))

abbrev pub submit_failed : Exception → Action (Unit {0})
submit_failed (document_too_large t) =
    and_then (fail_job true ocr t) (set_document_status doc_quarantined t)
submit_failed e = fail_with ocr e

unfoldable pub submit_pages : World → Job → Action (Unit {0})
unfolding normalise_document
submit_pages w job = and_then (start_job ocr) (
    if w.offline
    then and_then (work w.synthesized) (
        and_then (record_external_job_id ocr fake_ocr)
          (and_then (complete_job ocr) (normalise_document w)))
    else handle
        (and_then (work w.cut) (bind (submit w job.external_job_id) (record_external_job_id ocr)))
        submit_failed)

abbrev pub submit_route : World → Option OcrRoute → Job → Action (Unit {0})
submit_route w none job = change_job ocr (λ old. record old { status = skipped })
submit_route w (some route) job = submit_pages w job

unfoldable pub submit_ocr : World → Action (Unit {0})
unfolding submit_pages subset_route
submit_ocr w s =
    let route = subset_route s.manifest.rows in
    bind (get_or_create_job ocr (some (w.ocr_key route)))
      (λ job. if is_done job.status then give tt else submit_route w route job) s

unfoldable pub triage : World → Action Bool
triage w = and_then (work w.triaged) (
    and_then (write (λ s. record s { manifest = write_manifest w.probes s.manifest })) (
      and_then (complete_job preprocess)
        (and_then (set_document_status processing []) (give true))))

abbrev pub quarantine : Text → Action Bool
quarantine t =
    and_then (fail_job true preprocess t)
      (and_then (set_document_status doc_quarantined t) (give false))

unfoldable pub triage_failed : Exception → Action Bool
triage_failed (encrypted_document t) = quarantine t
triage_failed (budget_exceeded t) = quarantine t
triage_failed e = and_then (fail_job false preprocess (text_of e)) (throw e)

-- `true` says that the document goes on to OCR.
unfoldable pub run_triage : World → Job → Action Bool
unfolding triage triage_failed
run_triage w job =
    if is_completed job.status
    then give true
    else and_then (start_job preprocess) (handle (triage w) triage_failed)

unfoldable pub handle_document_ready : Option ℕ → World → Action (Unit {0})
unfolding run_triage submit_ocr
handle_document_ready key w =
    bind (get_or_create_job preprocess key)
      (λ job. bind (run_triage w job) (λ go. if go then submit_ocr w else give tt))

-- How Textract says that a job ended: with its blocks, or otherwise, with what the handler writes
-- down of that.
pub data Completion : Type 0 where
  succeeded : Completion
  unsuccessful : Text → Completion

unfoldable pub handle_textract_completed : Completion → World → Action (Unit {0})
unfolding normalise_document
handle_textract_completed (unsuccessful message) w =
    and_then (bind (get_or_create_job ocr none) (λ job. fail_job true ocr message))
      (set_document_status doc_failed message)
handle_textract_completed succeeded w =
    bind (get_or_create_job ocr none)
      (λ job. and_then (work w.fetched) (and_then (complete_job ocr) (normalise_document w)))
