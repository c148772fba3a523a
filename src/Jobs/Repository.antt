-- ===== src/Jobs/Repository.antt =====
-- backend/pipeline/db/repository.py: the writes on the jobs and the status of a document.
use cbc_new.Prelude.{ℕ, suc, Bool, true, false, Option, some, none, [], if◌then◌else◌, take}
use cbc_new.Prelude.Text.{Text}
use cbc_new.Jobs.{
  Stage, preprocess, ocr, normalize, extract, link, match_stage, price, pending, started, completed,
  failed, quarantined, DocumentStatus, Job, DocState, Action, write, ExternalId, returned,
}

abbrev pub same_stage : Stage → Stage → Bool
same_stage preprocess preprocess = true
same_stage ocr ocr = true
same_stage normalize normalize = true
same_stage extract extract = true
same_stage link link = true
same_stage match_stage match_stage = true
same_stage price price = true
same_stage _ _ = false

abbrev pub put_job : Stage → Job → DocState → DocState
put_job stage job s = record s {
  jobs = λ other. if same_stage stage other then some job else s.jobs other;
}

abbrev pub new_job : Option ℕ → Job
new_job key = record {
  status = pending;
  attempt = 0;
  error_detail = [];
  external_job_id = none;
  idempotency_key = key;
}

-- `idempotency_key and not job.idempotency_key`
abbrev pub fill_key : Option ℕ → Option ℕ → Option ℕ
fill_key key (some own) = some own
fill_key key none = key

abbrev pub with_key : Option ℕ → Option Job → Job
with_key key none = new_job key
with_key key (some job) = record job { idempotency_key = fill_key key job.idempotency_key }

-- The row of the stage, created if there is none, and its key filled in if it has none.
abbrev pub get_or_create_job : Stage → Option ℕ → Action Job
get_or_create_job stage key s =
    let job = with_key key (s.jobs stage) in (put_job stage job s, returned job)

-- The job of a stage is changed, where the stage has one.
abbrev pub change : (Job → Job) → Option Job → Option Job
change f none = none
change f (some job) = some (f job)

abbrev pub change_job : Stage → (Job → Job) → Action (Unit {0})
change_job stage f = write (λ s. record s {
  jobs = λ other. if same_stage stage other then change f (s.jobs stage) else s.jobs other;
})

abbrev pub start_job : Stage → Action (Unit {0})
start_job stage =
    change_job stage
      (λ job. record job { status = started; attempt = suc job.attempt; error_detail = [] })

abbrev pub complete_job : Stage → Action (Unit {0})
complete_job stage = change_job stage (λ job. record job { status = completed })

abbrev pub fail_job : Bool → Stage → Text → Action (Unit {0})
fail_job quarantine stage error = change_job stage (λ job. record job {
  status = if quarantine then quarantined else failed;
  error_detail = take 8000 error;
})

abbrev pub record_external_job_id : Stage → ExternalId → Action (Unit {0})
record_external_job_id stage id = change_job stage (λ job. record job { external_job_id = some id })

abbrev pub set_document_status : DocumentStatus → Text → Action (Unit {0})
set_document_status status detail =
    write (λ s. record s { status = status; status_detail = take 4000 detail })
