-- ===== src/Worker/Verify/Soundness.antt =====
-- When a verification succeeds, and what it says of a job that a pull has stored.
use rainlogs.Prelude.{
  ℕ, ◌≡◌, refl, ap, subst, sym, ◌∙◌, ◌≢◌, ◌⊎◌, inl, inr, true, not, ◌||◌, none, some, List, [], ◌∷◌,
  Bytes, is_empty, bytes_eq, bytes_eq_iff, ◌==◌, ==_iff, update_where, Bool-cases, Option-cases,
  All,
}
use rainlogs.Models.{LogJob}
use rainlogs.Hex.{encode}
use rainlogs.GoError.{GoError}
use rainlogs.Storage
use rainlogs.Storage.{Upload, Backend, prepare_blob}
use rainlogs.Storage.RoundTrip.{IsConsistent, AnswersReads, get_logs-put_logs}
use rainlogs.Db.LogJobs
use rainlogs.Db.Selected.{find_first-Memᴰ}
use rainlogs.Exec.{World, Env, Db, Outcome, ok, err, pure, raise, ignoring, db_exec}
use rainlogs.Exec.Steps.{
  on_ok, on_err, context_ok, context_err, row_found, row_fails, row_missing, get_done, get_failed,
  if_yes, if_no, counted, written, exec_runs, exec_fails,
}
use rainlogs.Worker.Verify.{process_task, verify_job, compare_hash, mark}

-- The database in which verified_at and updated_at of the rows of the identifier are `t`, and nothing
-- else is changed.
abbrev pub verified_db : ℕ → ℕ → Db → Db
verified_db id t d = record d {
  log_jobs =
      update_where (λ r. r.id == id) (λ r. record r { verified_at = some t; updated_at = t })
        d.log_jobs;
}

-- Why a verification fails: the row cannot be read, is not there, or names no blob or no hash, or the
-- blob cannot be read, or it has another hash.
abbrev pub Refusal : Env → ℕ → World → Type 0
Refusal env job_id w =
    (env.db_fails w.db_calls ≡ true)
    ⊎ (LogJobs.get_by_id job_id w.db.log_jobs ≡ none)
    ⊎ (job : LogJob) × (LogJobs.get_by_id job_id w.db.log_jobs ≡ some job)
      × (((job.s3_key ≡ []) ⊎ (job.sha256 ≡ []))
          ⊎ (Storage.get_logs env.codec job.s3_key w.backends ≡ none)
          ⊎ (logs : Bytes) × (Storage.get_logs env.codec job.s3_key w.backends ≡ some logs)
            × (encode (env.codec.sha256 logs) ≢ job.sha256))

no_text : (a b : Bytes) → (is_empty a || is_empty b) ≡ true → (a ≡ []) ⊎ (b ≡ [])
no_text [] b h = inl refl
no_text (x ∷ a) [] h = inr refl
no_text (x ∷ a) (y ∷ b) h = cc

-- How a verification ends, in the world `w` at its start.
pub data Verdict (env : Env) (job_id : ℕ) (w : World) : Outcome (Unit {0}) → World → Type 0 where
  -- The blob under the job's key decompresses to bytes of the recorded hash, and the row is stamped,
  -- unless the database refuses that.
  verified :
      {w' : World} (job : LogJob) (logs : Bytes)
      → LogJobs.get_by_id job_id w.db.log_jobs ≡ some job
      → Storage.get_logs env.codec job.s3_key w.backends ≡ some logs
      → encode (env.codec.sha256 logs) ≡ job.sha256
      → w'.backends ≡ w.backends
      → (w'.db ≡ verified_db job_id w.now w.db) ⊎ (w'.db ≡ w.db)
      → Verdict env job_id w (ok tt) w'
  refused :
      {w' : World} (e : GoError)
      → Refusal env job_id w
      → w'.backends ≡ w.backends
      → w'.db ≡ w.db
      → Verdict env job_id w (err e) w'

module _ (env : Env) (job_id : ℕ) (w : World) where
  Ends : Outcome (Unit {0}) × World → Type 0
  Ends r = Verdict env job_id w r.0 r.1

  Ends-via : (r s : Outcome (Unit {0}) × World) → r ≡ s → Ends s → Ends r
  unfolding Ends
  Ends-via r s e p = subst (λ r. Verdict env job_id w r.0 r.1) (sym e) p

  raise-Ends :
      (e : GoError) (w' : World)
      → Refusal env job_id w
      → w'.backends ≡ w.backends
      → w'.db ≡ w.db
      → Ends (raise e w')
  unfolding Ends raise
  raise-Ends e w' why b d = refused e why b d

  module _ (job : LogJob) (found : LogJobs.get_by_id job_id w.db.log_jobs ≡ some job) (logs : Bytes)
      (held : Storage.get_logs env.codec job.s3_key w.backends ≡ some logs) where
    mark_lem : mark env job w.db w.now ≡ verified_db job_id w.now w.db
    unfolding LogJobs.mark_verified LogJobs.get_by_id
    mark_lem =
        ap (λ i. verified_db i w.now w.db)
          ((==_iff job.id job_id).0
            (find_first-Memᴰ (LogJobs.has_id job_id) w.db.log_jobs job found).1)

    mark-Ends :
        encode (env.codec.sha256 logs) ≡ job.sha256
        → Ends (ignoring (db_exec env (mark env job)) (pure tt) (counted w))
    unfolding Ends ignoring pure
    mark-Ends same = elim (Bool-cases (env.db_fails (counted w).db_calls)) [
      | inl e ↦
          Ends-via _ (ok tt, counted (counted w))
            (ap (λ r. (ok tt, r.1)) (exec_fails env (mark env job) (counted w) e))
            (verified job logs found held same refl (inr refl))
      | inr e ↦
          Ends-via _ (ok tt, written (mark env job) (counted w))
            (ap (λ r. (ok tt, r.1)) (exec_runs env (mark env job) (counted w) e))
            (verified job logs found held same refl (inl mark_lem))
    ]

    compare_hash-Ends : Ends (compare_hash env job logs (counted w))
    unfolding compare_hash
    compare_hash-Ends = elim (Bool-cases (bytes_eq (encode (env.codec.sha256 logs)) job.sha256)) [
      | inl same ↦
          Ends-via _ _ (if_no _ _ _ _ (ap not same)) (mark-Ends ((bytes_eq_iff _ _).0 same))
      | inr differs ↦
          let other : encode (env.codec.sha256 logs) ≢ job.sha256 =
            λ e. cc (differs, (bytes_eq_iff _ _).1 e) in
          Ends-via _ _ (if_yes _ _ _ _ (ap not differs))
            (raise-Ends _ _ (inr (inr (job, found, inr (inr (logs, held, other))))) refl refl)
    ]

  verify_job-Ends :
      (job : LogJob)
      → LogJobs.get_by_id job_id w.db.log_jobs ≡ some job
      → Ends (verify_job env job (counted w))
  unfolding verify_job
  verify_job-Ends job found = elim (Bool-cases (is_empty job.s3_key || is_empty job.sha256)) [
    | inl missing ↦
        Ends-via _ _ (if_yes _ _ _ _ missing)
          (raise-Ends _ _ (inr (inr (job, found, inl (no_text _ _ missing)))) refl refl)
    | inr there ↦
        Ends-via _ _ (if_no _ _ _ _ there)
          (elim (Option-cases (Storage.get_logs env.codec job.s3_key w.backends)) [
            | inl lost ↦
                Ends-via _ _
                  (on_err _ _ _ _ (context_err _ _ _ (get_failed env _ (counted w) lost)))
                  (raise-Ends _ _ (inr (inr (job, found, inr (inl lost)))) refl refl)
            | inr (logs, held) ↦
                Ends-via _ _ (on_ok _ _ _ _ (context_ok _ _ _ (get_done env _ (counted w) held)))
                  (compare_hash-Ends job found logs held)
          ])
  ]

-- A verification succeeds only if the job is there and the blob under its key decompresses to bytes
-- whose SHA-256 is the recorded one; it then changes nothing but the row's verified_at and
-- updated_at. It fails only if the row cannot be read or is not there, names no blob or no hash, or its
-- blob cannot be read or has another hash, and then it changes nothing. That holds whichever calls of the database fail.
pub process_task-Verdict :
    (env : Env) (job_id : ℕ) (w : World)
    → let (r, w') = process_task env job_id w in Verdict env job_id w r w'
unfolding process_task Ends
process_task-Verdict env job_id w = elim (Bool-cases (env.db_fails w.db_calls)) [
  | inl fails ↦
      Ends-via env job_id w _ _ (on_err _ _ _ w (context_err _ _ _ (row_fails env _ w fails)))
        (raise-Ends env job_id w _ _ (inl fails) refl refl)
  | inr runs ↦ elim (Option-cases (LogJobs.get_by_id job_id w.db.log_jobs)) [
    | inl missing ↦
        Ends-via env job_id w _ _
          (on_err _ _ _ w (context_err _ _ _ (row_missing env _ w runs missing)))
          (raise-Ends env job_id w _ _ (inr (inl missing)) refl refl)
    | inr (job, found) ↦
        Ends-via env job_id w _ _ (on_ok _ _ _ w (context_ok _ _ _ (row_found env _ w runs found)))
          (verify_job-Ends env job_id w job found)
  ]
]

not_verified :
    {env : Env} {job_id : ℕ} {w : World} (r : Outcome (Unit {0})) (w' : World)
    → Verdict env job_id w r w'
    → ((job : LogJob) (logs : Bytes)
        → LogJobs.get_by_id job_id w.db.log_jobs ≡ some job
        → Storage.get_logs env.codec job.s3_key w.backends ≡ some logs
        → encode (env.codec.sha256 logs) ≡ job.sha256
        → ⊥)
    → (r ≢ ok tt) × (w'.db ≡ w.db)
not_verified _ _ (verified job logs found held same b d) fails =
    absurd (fails job logs found held same)
not_verified _ _ (refused e why b d) fails = ((λ p. cc), d)

-- A job that a pull has stored, its key and its hash being those of the uploaded blob, is never
-- verified, since the recorded hash is that of the compressed blob: where the raw logs hash
-- differently, its verification fails and the row is not stamped.
pub process_task-put_logs :
    (env : Env) (job_id : ℕ) (w : World) (u : Upload) (bs : List Backend) (label : Bytes)
    (row : LogJob)
    → Storage.put_logs env.codec u bs ≡ some (label, w.backends)
    → All (IsConsistent env.codec u) bs
    → All (AnswersReads env.codec u) bs
    → LogJobs.get_by_id job_id w.db.log_jobs ≡ some row
    → row.s3_key ≡ (prepare_blob env.codec u).key
    → row.sha256 ≡ (prepare_blob env.codec u).sha256
    → encode (env.codec.sha256 u.raw) ≢ encode (env.codec.sha256 (env.codec.gzip u.raw))
    → let (r, w') = process_task env job_id w in (r ≢ ok tt) × (w'.db ≡ w.db)
unfolding prepare_blob
process_task-put_logs env job_id w u bs label row put consistent answers found key sha differ =
    not_verified _ _ (process_task-Verdict env job_id w) λ job logs found' held same.
      let row_is : job ≡ row = cc (found, found') in
      let stored = get_logs-put_logs env.codec u bs w.backends label consistent answers put in
      let raw_is : logs ≡ u.raw = cc (held, stored, key, row_is) in
      differ (rw (← raw_is) same ∙ ap (λ j. j.sha256) row_is ∙ sha)
