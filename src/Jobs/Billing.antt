-- ===== src/Jobs/Billing.antt =====
-- Messages are delivered at least once; Textract is paid once (handle_document_ready, _submit_ocr and
-- handle_textract_completed of backend/pipeline/coordinator.py, and submit of stages/ocr.py).
use mathlib.Core.Path.{subst}
use cbc_new.Prelude.{
  ℕ, ◌≡◌, ◌≤◌, refl, sym, Bool, true, false, Option, some, none, List, [], ◌∷◌, length, is_some,
  if◌then◌else◌, arith,
}
use cbc_new.Pages.{OcrRoute}
use cbc_new.Jobs.{
  ocr, preprocess, ExternalId, fake_ocr, textract, Job, Exception, encrypted_document,
  budget_exceeded, document_too_large, table_budget_exceeded, config_error, boto_core_error,
  other_error, client_error, DocState, Result, bind, give, handle, returned, raised, and_then,
}
use cbc_new.Jobs.Repository.{
  change, with_key, put_job, start_job, complete_job, get_or_create_job, record_external_job_id,
}
use cbc_new.Jobs.Coordinator.{
  World, is_completed, is_done, submit_failed, submit_pages, submit_route, submit_ocr, subset_route,
  triage, triage_failed, run_triage, handle_document_ready, Completion, succeeded, unsuccessful,
  handle_textract_completed,
}
use cbc_new.Jobs.Framed.{Framed, Frames, frame_then, frame_handler, normalise-Frames}

abbrev pub external_of : Option Job → Option ExternalId
external_of none = none
external_of (some job) = job.external_job_id

-- At most one Textract job was started; when one was, the row of OCR has an identifier.
abbrev pub IsBilled : List ℕ → Option ExternalId → Type 0
IsBilled [] id = Unit
IsBilled (n ∷ []) id = is_some id ≡ true
IsBilled (n ∷ (m ∷ ns)) id = ⊥

abbrev IsPaid : List ℕ → Option Job → Type 0
IsPaid submissions job = IsBilled submissions (external_of job)

abbrev Paid : DocState → Type 0
Paid = Framed IsPaid

abbrev Pays : {A : Type 0} → DocState × Result A → Type 0
Pays = Frames IsPaid

IsBilled-some :
    (ns : List ℕ) (x : Option ExternalId) (id : ExternalId) → IsBilled ns x → IsBilled ns (some id)
IsBilled-some [] x id h = tt
IsBilled-some (n ∷ []) x id h = refl
IsBilled-some (n ∷ (m ∷ ns)) x id h = h

IsBilled-new :
    (ns : List ℕ) (n : ℕ) (id : ExternalId) → IsBilled ns none → IsBilled (n ∷ ns) (some id)
IsBilled-new [] n id h = refl
IsBilled-new (m ∷ []) n id h = absurd cc
IsBilled-new (m ∷ (k ∷ ns)) n id h = h

keyed : (key : Option ℕ) (o : Option Job) → external_of o ≡ external_of (some (with_key key o))
keyed key none = refl
keyed key (some job) = refl

Paid-job : (key : Option ℕ) (s : DocState) → Paid s → Paid (get_or_create_job ocr key s).0
Paid-job key s h = subst (IsBilled s.submissions) (keyed key (s.jobs ocr)) h

kept_change :
    (f : Job → Job) (ns : List ℕ) (o : Option Job)
    → ((j : Job) → (f j).external_job_id ≡ j.external_job_id)
    → IsPaid ns o
    → IsPaid ns (change f o)
kept_change f ns none same h = h
kept_change f ns (some job) same h = subst (IsBilled ns) (sym (same job)) h

submit_failed-Pays : (s : DocState) (e : Exception) → Paid s → Pays (submit_failed e s)
submit_failed-Pays s (encrypted_document t) h =
    kept_change _ s.submissions (s.jobs ocr) (λ j. refl) h
submit_failed-Pays s (budget_exceeded t) h = kept_change _ s.submissions (s.jobs ocr) (λ j. refl) h
submit_failed-Pays s (document_too_large t) h =
    kept_change _ s.submissions (s.jobs ocr) (λ j. refl) h
submit_failed-Pays s (table_budget_exceeded t) h =
    kept_change _ s.submissions (s.jobs ocr) (λ j. refl) h
submit_failed-Pays s (config_error t) h = kept_change _ s.submissions (s.jobs ocr) (λ j. refl) h
submit_failed-Pays s (boto_core_error t) h = kept_change _ s.submissions (s.jobs ocr) (λ j. refl) h
submit_failed-Pays s (other_error t) h = kept_change _ s.submissions (s.jobs ocr) (λ j. refl) h
submit_failed-Pays s (client_error code t) h =
    kept_change _ s.submissions (s.jobs ocr) (λ j. refl) h

submit_pages-Pays :
    (w : World) (job : Job) (s : DocState)
    → IsBilled s.submissions job.external_job_id
    → Pays (submit_pages w job (put_job ocr job s))
unfolding submit_pages
submit_pages-Pays w job s h = ended w.offline w.synthesized w.cut w.refused job.external_job_id h
  where
    ended :
        (offline : Bool) (synthesized cut refused : Option Exception) (id : Option ExternalId)
        → IsBilled s.submissions id
        → let own = record job { external_job_id = id } in
          Pays (
            submit_pages
              (record w {
                offline = offline;
                synthesized = synthesized;
                cut = cut;
                refused = refused;
              })
              own
              (put_job ocr own s))
    ended true (some e) cut refused id k = k
    ended true none cut refused id k =
        let own = record job { external_job_id = id } in
        normalise-Frames IsPaid w
          (and_then (start_job ocr)
            (and_then (record_external_job_id ocr fake_ocr) (complete_job ocr))
            (put_job ocr own s)).0
          (IsBilled-some s.submissions id fake_ocr k)
    ended false synthesized (some e) refused id k =
        let own = record job { external_job_id = id } in
        submit_failed-Pays (start_job ocr (put_job ocr own s)).0 e k
    ended false synthesized none refused (some id) k = k
    ended false synthesized none (some e) none k =
        let own = record job { external_job_id = none } in
        submit_failed-Pays (start_job ocr (put_job ocr own s)).0 e k
    ended false synthesized none none none k =
        IsBilled-new s.submissions w.job_id (textract w.job_id) k

submit_ocr-Pays : (w : World) (s : DocState) → Paid s → Pays (submit_ocr w s)
unfolding submit_ocr
submit_ocr-Pays w s h = ready (subset_route s.manifest.rows)
  where
    routed :
        (route : Option OcrRoute) (job : Job)
        → IsBilled s.submissions job.external_job_id
        → (b : Bool) → Pays ((if b then give tt else submit_route w route job) (put_job ocr job s))
    routed route job k true = k
    routed none job k false = k
    routed (some route) job k false = submit_pages-Pays w job s k

    ready :
        (route : Option OcrRoute)
        → let key = some (w.ocr_key route) in
          Pays (
            bind
              (get_or_create_job ocr key)
              (λ job. if is_done job.status then give tt else submit_route w route job)
              s)
    ready route =
        let job = with_key (some (w.ocr_key route)) (s.jobs ocr) in
        routed route job (Paid-job (some (w.ocr_key route)) s h) (is_done job.status)

triage_failed-Pays : (e : Exception) (s : DocState) → Paid s → Pays (triage_failed e s)
unfolding triage_failed
triage_failed-Pays (encrypted_document t) s h = h
triage_failed-Pays (budget_exceeded t) s h = h
triage_failed-Pays (document_too_large t) s h = h
triage_failed-Pays (table_budget_exceeded t) s h = h
triage_failed-Pays (config_error t) s h = h
triage_failed-Pays (boto_core_error t) s h = h
triage_failed-Pays (other_error t) s h = h
triage_failed-Pays (client_error code t) s h = h

triage-Pays : (w : World) (s : DocState) → Paid s → Pays (triage w s)
unfolding triage
triage-Pays w s h = ended w.triaged
  where
    ended : (e : Option Exception) → Pays (triage (record w { triaged = e }) s)
    ended (some e) = h
    ended none = h

run_triage-Pays : (w : World) (job : Job) (s : DocState) → Paid s → Pays (run_triage w job s)
unfolding run_triage
run_triage-Pays w job s h = tested (is_completed job.status)
  where
    tested :
        (b : Bool)
        → Pays (
            (if b
                then give true
                else and_then (start_job preprocess) (handle (triage w) triage_failed))
              s)
    tested true = h
    tested false =
        let s' = (start_job preprocess s).0 in
        frame_handler IsPaid (triage w s') triage_failed (triage-Pays w s' h) triage_failed-Pays

ready-Pays :
    (key : Option ℕ) (w : World) (s : DocState) → Paid s → Pays (handle_document_ready key w s)
unfolding handle_document_ready
ready-Pays key w s h =
    let job = with_key key (s.jobs preprocess) in
    let s' = put_job preprocess job s in
    frame_then IsPaid (run_triage w job s') (λ go. if go then submit_ocr w else give tt)
      (run_triage-Pays w job s' h) go_on
  where
    go_on : (go : Bool) (t : DocState) → Paid t → Pays ((if go then submit_ocr w else give tt) t)
    go_on true t k = submit_ocr-Pays w t k
    go_on false t k = k

textract-Pays :
    (c : Completion) (w : World) (s : DocState) → Paid s → Pays (handle_textract_completed c w s)
unfolding handle_textract_completed
textract-Pays (unsuccessful message) w s h = Paid-job none s h
textract-Pays succeeded w s h = ended w.fetched
  where
    ended :
        (e : Option Exception)
        → Pays (handle_textract_completed succeeded (record w { fetched = e }) s)
    ended (some e) = Paid-job none s h
    ended none =
        normalise-Frames IsPaid w (bind (get_or_create_job ocr none) (λ job. complete_job ocr) s).0
          (Paid-job none s h)

-- A message that is delivered, with what its work ends in this time.
pub data Delivery : Type 0 where
  document_ready : Option ℕ → World → Delivery
  textract_completed : Completion → World → Delivery

unfoldable pub deliver : Delivery → DocState → DocState
deliver (document_ready key w) s = (handle_document_ready key w s).0
deliver (textract_completed c w) s = (handle_textract_completed c w s).0

unfoldable pub deliver_all : List Delivery → DocState → DocState
deliver_all [] s = s
deliver_all (d ∷ ds) s = deliver_all ds (deliver d s)

after : {A : Type 0} (o : DocState × Result A) → Pays o → Paid o.0
after (s, returned a) h = h
after (s, raised e) h = h

deliver_pays : (d : Delivery) (s : DocState) → Paid s → Paid (deliver d s)
unfolding deliver
deliver_pays (document_ready key w) s h =
    after (handle_document_ready key w s) (ready-Pays key w s h)
deliver_pays (textract_completed c w) s h =
    after (handle_textract_completed c w s) (textract-Pays c w s h)

deliver_all_pays : (ds : List Delivery) (s : DocState) → Paid s → Paid (deliver_all ds s)
unfolding deliver_all
deliver_all_pays [] s h = h
deliver_all_pays (d ∷ ds) s h = deliver_all_pays ds (deliver d s) (deliver_pays d s h)

at_most_one : (ns : List ℕ) (id : Option ExternalId) → IsBilled ns id → length ns ≤ 1
at_most_one [] id h = omega arith
at_most_one (n ∷ []) id h = omega arith
at_most_one (n ∷ (m ∷ ns)) id h = absurd h

-- However often the messages of a document are delivered, in whatever order and whatever their work
-- ends in, at most one Textract job is started for it, if none was started before.
pub submitted_once :
    (ds : List Delivery) (s : DocState)
    → s.submissions ≡ []
    → length (deliver_all ds s).submissions ≤ 1
submitted_once ds s e =
    let start : Paid s = rw e tt in
    let end = deliver_all ds s in
    at_most_one end.submissions (external_of (end.jobs ocr)) (deliver_all_pays ds s start)
