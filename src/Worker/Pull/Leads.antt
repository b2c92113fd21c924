-- ===== src/Worker/Pull/Leads.antt =====
-- The four ways in which a pull ends while the database answers, and the steps that lead there.
use rainlogs.Prelude.{
  ℕ, ◌≡◌, refl, ap, subst, sym, ◌∙◌, inl, inr, Bool, true, false, some, List, [], Bytes, codes,
  contains, is_empty, if◌then◌else◌, Bool-cases, Option-cases,
}
use rainlogs.Models.{LogJob, Zone, JobStatus}
use rainlogs.GoError.{GoError, error_text}
use rainlogs.Storage
use rainlogs.Storage.{BlobMetadata, Upload, Backend, Codec, prepare_blob}
use rainlogs.Db.LogJobs
use rainlogs.Db.LogJobs.Rows.{get_by_id-update}
use rainlogs.Queue.{LogPullPayload}
use rainlogs.Cloudflare.Logpull.{pull_logs}
use rainlogs.Exec.{
  World, Env, Db, Exec, Outcome, ok, err, pure, raise, on_error, ignoring, put_logs,
}
use rainlogs.Exec.Steps.{on_ok, on_err, context_ok, exec_runs, put_done, put_failed, written}
use rainlogs.Exec.Reads.{Reads, db_query_row-Reads}
use rainlogs.Worker.Pull.{
  Inputs, new_job, on_jobs, failed_job, update_job, sealed_job, fail_job, lift, last_hash,
  ask_cloudflare, finish,
}
use rainlogs.Worker.Pull.Stored.{enqueue-Ends}

-- What asynq is told of a job that failed.
abbrev pub answer : GoError → Outcome (Unit {0})
answer e = if contains (error_text e) (codes "HTTP 403") then ok tt else err e

module _ (codec : Codec) (inputs : Inputs) (payload : LogPullPayload) where
  -- What Cloudflare answered when it was asked for the logs of the payload's period.
  abbrev pub Pulled : Bytes → Type 0
  Pulled logs =
      (zone_id : Bytes) × (key : Bytes) × (now : ℕ) × (pull_logs codec.gunzip inputs.cloudflare
          zone_id key payload.period_start payload.period_end now
        ≡ ok logs)

  -- An upload of such an answer, which is not empty.
  pub record IsAnswer (u : Upload) : Type 0 where
    pub pulled : Pulled u.raw
    pub held : is_empty u.raw ≡ false
    pub from : u.from ≡ payload.period_start
    pub to : u.to ≡ payload.period_end

-- How a pull ends, with the providers `bs` at its start.
pub data Ending (codec : Codec) (inputs : Inputs) (payload : LogPullPayload) (bs : List Backend)
    : Outcome (Unit {0}) → World → Type 0 where
  stored :
      {w : World} (row : LogJob) (u : Upload)
      → IsAnswer codec inputs payload u
      → LogJobs.get_by_id inputs.new_id w.db.log_jobs ≡ some row
      → row.status ≡ JobStatus.done
      → row.s3_key ≡ (prepare_blob codec u).key
      → row.sha256 ≡ (prepare_blob codec u).sha256
      → Storage.put_logs codec u bs ≡ some (row.s3_provider, w.backends)
      → Ending codec inputs payload bs (ok tt) w
  empty :
      {w : World} (row : LogJob)
      → Pulled codec inputs payload []
      → LogJobs.get_by_id inputs.new_id w.db.log_jobs ≡ some row
      → row.status ≡ JobStatus.done
      → row.s3_key ≡ []
      → row.chain_hash ≡ []
      → w.backends ≡ bs
      → Ending codec inputs payload bs (ok tt) w
  failed :
      {w : World} (row : LogJob) (e : GoError)
      → LogJobs.get_by_id inputs.new_id w.db.log_jobs ≡ some row
      → row.status ≡ JobStatus.failed
      → row.attempts ≡ 1
      → row.err_msg ≡ error_text e
      → w.backends ≡ bs
      → Ending codec inputs payload bs (answer e) w
  left :
      {w : World} (row : LogJob) (e : GoError)
      → LogJobs.get_by_id inputs.new_id w.db.log_jobs ≡ some row
      → row.status ≡ JobStatus.pending
      → w.backends ≡ bs
      → Ending codec inputs payload bs (err e) w

pub lift-Reads : (r : Outcome Bytes) → Reads (lift r)
unfolding lift
lift-Reads r = record { db = λ w. refl; backends = λ w. refl }

module _ (env : Env) (runs : (n : ℕ) → env.db_fails n ≡ false) (inputs : Inputs)
    (payload : LogPullPayload) (bs : List Backend) (created : ℕ) where
  abbrev pub job : LogJob
  job = new_job inputs.new_id payload

  -- The job is there and pending, and no provider has changed.
  abbrev pub IsOpen : Db → List Backend → Type 0
  IsOpen d cs =
      (LogJobs.get_by_id inputs.new_id d.log_jobs ≡ some (LogJobs.inserted created job)) × (cs ≡ bs)

  pub record Leads (m : Exec (Unit {0})) : Type 0 where
    pub at :
        (w : World) → IsOpen w.db w.backends → Ending env.codec inputs payload bs (m w).0 (m w).1

  on_cases :
      {A : Type 0} (h : GoError → Exec (Unit {0})) (k : A → Exec (Unit {0}))
      → ((e : GoError) → Leads (h e))
      → (r : Outcome A) → ((a : A) → r ≡ ok a → Leads (k a))
      → (w : World) → IsOpen w.db w.backends
      → let s = elim r as (λ _. Outcome (Unit {0}) × World) [ ok a ↦ k a w | err e ↦ h e w ] in
        Ending env.codec inputs payload bs s.0 s.1
  on_cases h k lh (ok a) lk w p = (lk a refl).at w p
  on_cases h k lh (err e) lk w p = (lh e).at w p

  pub on_error-Leads :
      {A : Type 0} (m : Exec A) (h : GoError → Exec (Unit {0})) (k : A → Exec (Unit {0}))
      → Reads m
      → ((e : GoError) → Leads (h e))
      → ((a : A) (w : World) → (m w).0 ≡ ok a → Leads (k a))
      → Leads (on_error m h k)
  unfolding on_error
  on_error-Leads m h k reads lh lk = record {
    at = λ w p.
        on_cases h k lh (m w).0 (λ a e. lk a w e) (m w).1
          (rw (reads.db w) p.0, reads.backends w ∙ p.1);
  }

  pub if-Leads : (b : Bool) (m n : Exec (Unit {0})) → Leads m → Leads n → Leads (if b then m else n)
  if-Leads true m n lm ln = lm
  if-Leads false m n lm ln = ln

  pub raise-Leads : (e : GoError) → Leads (raise e)
  unfolding raise
  raise-Leads e = record { at = λ w p. left (LogJobs.inserted created job) e p.0 refl p.1 }

  Ends : Outcome (Unit {0}) × World → Type 0
  Ends r = Ending env.codec inputs payload bs r.0 r.1

  Ends-via : (r s : Outcome (Unit {0}) × World) → r ≡ s → Ends s → Ends r
  unfolding Ends
  Ends-via r s e = subst (λ r. Ending env.codec inputs payload bs r.0 r.1) (sym e)

  answer_lem :
      (e : GoError) (w : World)
      → (if contains (error_text e) (codes "HTTP 403") then pure tt else raise e) w ≡ (answer e, w)
  unfolding pure raise
  answer_lem e w = elim (Bool-cases (contains (error_text e) (codes "HTTP 403"))) [
    | inl b ↦ rw b refl
    | inr b ↦ rw b refl
  ]

  abbrev on_update : LogJob → Db → ℕ → Db
  on_update j d now = on_jobs (LogJobs.update now j) d

  updated :
      (j : LogJob) (w : World)
      → j.id ≡ inputs.new_id
      → IsOpen w.db w.backends
      → LogJobs.get_by_id inputs.new_id (LogJobs.update w.now j w.db.log_jobs)
        ≡ some (LogJobs.assign w.now j (LogJobs.inserted created job))
  updated j w e p =
      subst
        (λ i.
          LogJobs.get_by_id i (LogJobs.update w.now j w.db.log_jobs)
          ≡ some (LogJobs.assign w.now j (LogJobs.inserted created job)))
        e
        (get_by_id-update w.now j w.db.log_jobs (
          subst (λ i. LogJobs.get_by_id i w.db.log_jobs ≡ some (LogJobs.inserted created job))
            (sym e) p.0))

  pub fail_job-Leads : (e : GoError) → Leads (fail_job env job e)
  unfolding fail_job ignoring Ends
  fail_job-Leads e = record {
    at = λ w p.
        let j = failed_job job e in
        Ends-via _ _
          (ap (λ r. (if contains (error_text e) (codes "HTTP 403") then pure tt else raise e) r.1)
              (exec_runs env _ w (runs w.db_calls))
            ∙ answer_lem e (written (on_update j) w))
          (failed (LogJobs.assign w.now j (LogJobs.inserted created job)) e (updated j w refl p)
            refl refl refl p.1);
  }

  pub empty-Leads :
      Pulled env.codec inputs payload []
      → Leads
          (update_job env (record job { status = JobStatus.done; log_count = 0; byte_count = 0 }))
  unfolding Ends
  empty-Leads none_there = record {
    at = λ w p.
        let j = record job { status = JobStatus.done; log_count = 0; byte_count = 0 } in
        Ends-via _ _ (exec_runs env _ w (runs w.db_calls)) (
          empty (LogJobs.assign w.now j (LogJobs.inserted created job)) none_there
            (updated j w refl p) refl refl refl p.1);
  }

  stored_by :
      (u : Upload) (label : Bytes) (row : LogJob) (r : Outcome (Unit {0}) × World)
      → IsAnswer env.codec inputs payload u
      → r.0 ≡ ok tt
      → LogJobs.get_by_id inputs.new_id r.1.db.log_jobs ≡ some row
      → row.status ≡ JobStatus.done
      → row.s3_key ≡ (prepare_blob env.codec u).key
      → row.sha256 ≡ (prepare_blob env.codec u).sha256
      → row.s3_provider ≡ label
      → Storage.put_logs env.codec u bs ≡ some (label, r.1.backends)
      → Ends r
  unfolding Ends
  stored_by u label row r answers done found status key sha provider put =
      subst (λ o. Ending env.codec inputs payload bs o r.1) (sym done)
        (stored row u answers found status key sha (rw provider put))

  module _ (chain label : Bytes) (u : Upload) (answers : IsAnswer env.codec inputs payload u) where
    finish-stored :
        (w : World)
        → LogJobs.get_by_id inputs.new_id w.db.log_jobs ≡ some (LogJobs.inserted created job)
        → Storage.put_logs env.codec u bs ≡ some (label, w.backends)
        → Ends (finish env inputs payload job chain (prepare_blob env.codec u, label) w)
    unfolding finish
    finish-stored w row put =
        let j = sealed_job env inputs payload job (prepare_blob env.codec u, label) chain in
        let w' = written (on_update j) w in
        let (done, db, backends) = enqueue-Ends env w' inputs.new_id in
        Ends-via _ _ (on_ok _ _ _ w (context_ok _ _ _ (exec_runs env _ w (runs w.db_calls)))) (
          stored_by u label (LogJobs.assign w.now j (LogJobs.inserted created job)) _ answers done
            (ap (λ d. LogJobs.get_by_id inputs.new_id d.log_jobs) db
              ∙ get_by_id-update w.now j w.db.log_jobs row)
            refl refl refl refl (put ∙ ap (λ cs. some (label, cs)) (sym backends)))

  pub last_hash-Reads : (z : Zone) → Reads (last_hash env inputs payload job z)
  unfolding last_hash
  last_hash-Reads z = record {
    db = λ w. (db_query_row-Reads env (λ d _. LogJobs.get_last_job z.id d.log_jobs)).db w;
    backends =
        λ w. (db_query_row-Reads env (λ d _. LogJobs.get_last_job z.id d.log_jobs)).backends w;
  }

  pub ask_cloudflare-Reads :
      (z : Zone) (key : Bytes) → Reads (ask_cloudflare env inputs payload job z key)
  unfolding ask_cloudflare
  ask_cloudflare-Reads z key = record { db = λ w. refl; backends = λ w. refl }

  -- The upload, and what follows it.
  pub put-Leads :
      (u : Upload) (h : GoError → Exec (Unit {0})) (chain : Bytes)
      → IsAnswer env.codec inputs payload u
      → ((e : GoError) → Leads (h e))
      → Leads (on_error (put_logs env u) h (finish env inputs payload job chain))
  unfolding Ends
  put-Leads u h chain answers lh = record {
    at = λ w p. elim (Option-cases (Storage.put_logs env.codec u w.backends)) [
      | inl e ↦ Ends-via _ _ (on_err _ _ _ w (put_failed env u w e)) ((lh _).at w p)
      | inr ((label, cs), e) ↦ Ends-via _ _ (on_ok _ _ _ w (put_done env u w e)) (
          finish-stored chain label u answers (record w { backends = cs }) p.0
            (ap (Storage.put_logs env.codec u) (sym p.1) ∙ e))
    ];
  }
