-- ===== src/Jobs.antt =====
-- backend/pipeline: the jobs of one document, one row for each stage, and the handlers that move
-- them. `Repository` has the writes of db/repository.py, `Extraction` the stages of
-- stages/run_extraction.py, `Coordinator` the handlers of coordinator.py. A handler takes what is
-- stored to what is stored after it, and returns or raises; what it saved before an exception stays
-- saved. What a stage itself does (reading the pdf, the cloud calls, the model, matching, pricing) is
-- not here: the exception that it ends in, if any, is an argument.
use cbc_new.Prelude.{ℕ, Bool, true, false, Option, some, none, List, if◌then◌else◌}
use cbc_new.Prelude.Text.{Text}
use cbc_new.Pages.Manifest.{Manifest}
pub mod Repository
pub mod Extraction
pub mod Coordinator
pub mod Ends
pub mod Extracted
pub mod Settled
pub mod Framed
pub mod Billing
mod Tests

pub data Stage : Type 0 where
  preprocess ocr normalize extract link match_stage price : Stage

pub data JobStatus : Type 0 where
  pending started completed failed quarantined skipped : JobStatus

pub data DocumentStatus : Type 0 where
  uploaded ready_for_processing processing processed doc_failed doc_quarantined : DocumentStatus

-- The identifier of a job elsewhere: that of the offline loop, or one that Textract gave.
pub data ExternalId : Type 0 where
  fake_ocr : ExternalId
  textract : ℕ → ExternalId

-- A row of pipeline_jobs, without its times and costs.
pub record Job : Type 0 where
  pub status : JobStatus
  pub attempt : ℕ
  pub error_detail : Text
  pub external_job_id : Option ExternalId
  pub idempotency_key : Option ℕ

-- The exceptions that the handlers tell apart, with their texts.
pub data Exception : Type 0 where
  encrypted_document budget_exceeded document_too_large table_budget_exceeded : Text → Exception
  config_error boto_core_error other_error : Text → Exception
  client_error : Text → Text → Exception

abbrev pub text_of : Exception → Text
text_of (encrypted_document t) = t
text_of (budget_exceeded t) = t
text_of (document_too_large t) = t
text_of (table_budget_exceeded t) = t
text_of (config_error t) = t
text_of (boto_core_error t) = t
text_of (other_error t) = t
text_of (client_error code t) = t

-- What is stored of a document, and the Textract jobs that were started for it.
pub record DocState : Type 0 where
  pub status : DocumentStatus
  pub status_detail : Text
  pub jobs : Stage → Option Job
  pub manifest : Manifest
  pub submissions : List ℕ

pub data Result {ℓ} (A : Type ℓ) : Type ℓ where
  returned : A → Result A
  raised : Exception → Result A

abbrev pub Action : Type 0 → Type 0
Action A = DocState → DocState × Result A

module _ {A B : Type 0} where
  abbrev pub continue : DocState × Result A → (A → Action B) → DocState × Result B
  continue (s, returned a) f = f a s
  continue (s, raised e) f = (s, raised e)

  -- One action, then another on its result.
  abbrev pub bind : Action A → (A → Action B) → Action B
  bind a f s = continue (a s) f

module _ {A : Type 0} where
  abbrev pub give : A → Action A
  give a s = (s, returned a)

  abbrev pub recover : DocState × Result A → (Exception → Action A) → DocState × Result A
  recover (s, returned a) h = (s, returned a)
  recover (s, raised e) h = h e s

  -- `try: … except`
  abbrev pub handle : Action A → (Exception → Action A) → Action A
  handle a h s = recover (a s) h

  abbrev pub throw : Exception → Action A
  throw e s = (s, raised e)

  abbrev pub and_then : Action (Unit {0}) → Action A → Action A
  and_then a b = bind a (λ u. b)

abbrev pub write : (DocState → DocState) → Action (Unit {0})
write f s = (f s, returned tt)

-- A piece of work that ends in an exception or not.
abbrev pub work : Option Exception → Action (Unit {0})
work none s = (s, returned tt)
work (some e) s = (s, raised e)
