-- ===== src/Worker/Expire/Complete.antt =====
-- What an expiry achieves when nothing fails.
use rainlogs.Prelude.{
  ℕ, ◌≡◌, refl, ap, subst, sym, ◌∙◌, inl, inr, arith, Bool, false, List, [], ◌∷◌, is_empty,
  if◌then◌else◌, Bool-cases, All,
}
use rainlogs.Models.{LogJob}
use rainlogs.Storage.Deletion.{Accepts, cleared, cleared-Accepts, delete_object-cleared}
use rainlogs.Db.LogJobs.{list_expired}
use rainlogs.Queue.{LogExpirePayload}
use rainlogs.Exec
use rainlogs.Exec.{World, Env, Db, Exec, Outcome, ok, err, ignoring, pure}
use rainlogs.Exec.Steps.{
  on_ok, context_ok, query_runs, exec_runs, counted, written, if_yes, if_no, delete_done,
}
use rainlogs.Worker.Expire.{expire, expire_jobs, process_task}
use rainlogs.Worker.Expire.Retention.{All-imp, IsDue, list_expired-All}
use rainlogs.Worker.Expire.Marks.{
  IsExpired, IsGone, Present, mark_expired-IsExpired, keep-IsExpired, keep-Present, cleared-IsGone,
  keep-IsGone, list_expired-Present,
}

-- What the loop is to achieve for one job.
abbrev pub IsPruned : World → LogJob → Type 0
IsPruned w job =
    IsExpired job.id w.db.log_jobs × (is_empty job.s3_key ≡ false → IsGone job.s3_key w.backends)

abbrev PresentIn : World → LogJob → Type 0
PresentIn w job = Present job.id w.db.log_jobs

module _ (env : Env) (runs : (n : ℕ) → env.db_fails n ≡ false) where
  abbrev cleared_world : LogJob → World → World
  cleared_world job w = record w { backends = cleared env.codec job.s3_key w.backends }

  -- The world after one turn of the loop.
  abbrev after_job : LogJob → World → World
  after_job job w =
      written (expire env job) (if is_empty job.s3_key then w else cleared_world job w)

  abbrev after_jobs : List LogJob → World → World
  after_jobs [] w = w
  after_jobs (job ∷ jobs) w = after_jobs jobs (after_job job w)

  after_job-Accepts :
      (job : LogJob) (w : World) → All Accepts w.backends → All Accepts (after_job job w).backends
  after_job-Accepts job w h = elim (Bool-cases (is_empty job.s3_key)) [
    | inl empty ↦ rw empty h
    | inr held ↦ rw held (cleared-Accepts env.codec job.s3_key w.backends h)
  ]

  mark_step :
      (job : LogJob) (rest : Exec (Unit {0})) (w : World)
      → ignoring (Exec.db_exec env (expire env job)) rest w ≡ rest (written (expire env job) w)
  unfolding ignoring
  mark_step job rest w = ap (λ r. rest r.1) (exec_runs env (expire env job) w (runs w.db_calls))

  abbrev loop : LogJob → List LogJob → Bool → World → Outcome (Unit {0}) × World
  loop job jobs b w =
      expire_jobs env jobs (written (expire env job) (if b then w else cleared_world job w))

  expire_jobs_lem :
      (jobs : List LogJob) (w : World)
      → All Accepts w.backends
      → expire_jobs env jobs w ≡ (ok tt, after_jobs jobs w)
  unfolding expire_jobs pure
  expire_jobs_lem [] w h = refl
  expire_jobs_lem (job ∷ jobs) w h =
      let ih = expire_jobs_lem jobs (after_job job w) (after_job-Accepts job w h) in
      let turn : (b c : Bool) → b ≡ c → loop job jobs b w ≡ loop job jobs c w =
        λ b c e. ap (λ b. loop job jobs b w) e in
      elim (Bool-cases (is_empty job.s3_key)) [
        | inl empty ↦ if_yes _ _ _ w empty ∙ mark_step job _ w ∙ turn _ _ (sym empty) ∙ ih
        | inr held ↦
            if_no _ _ _ w held
            ∙ on_ok _ _ _ w (
                delete_done env job.s3_key w
                  (delete_object-cleared env.codec job.s3_key w.backends h))
            ∙ mark_step job _ (cleared_world job w)
            ∙ turn _ _ (sym held)
            ∙ ih
      ]

  after_job-keeps : (job k : LogJob) (w : World) → IsPruned w k → IsPruned (after_job job w) k
  after_job-keeps job k w (expired, gone) = elim (Bool-cases (is_empty job.s3_key)) [
    | inl empty ↦ rw empty (keep-IsExpired w.now job.id k.id w.db.log_jobs expired, gone)
    | inr held ↦ rw held (
      keep-IsExpired w.now job.id k.id w.db.log_jobs expired,
      λ h. keep-IsGone env.codec job.s3_key k.s3_key w.backends (gone h),
    )
  ]

  after_job-present : (job k : LogJob) (w : World) → PresentIn w k → PresentIn (after_job job w) k
  after_job-present job k w there = elim (Bool-cases (is_empty job.s3_key)) [
    | inl empty ↦ rw empty (keep-Present w.now job.id k.id w.db.log_jobs there)
    | inr held ↦ rw held (keep-Present w.now job.id k.id w.db.log_jobs there)
  ]

  after_job-prunes : (job : LogJob) (w : World) → PresentIn w job → IsPruned (after_job job w) job
  after_job-prunes job w there = elim (Bool-cases (is_empty job.s3_key)) [
    | inl empty ↦
        rw empty (mark_expired-IsExpired w.now job.id w.db.log_jobs there, λ h. ground arith)
    | inr held ↦ rw held (
      mark_expired-IsExpired w.now job.id w.db.log_jobs there,
      λ h. cleared-IsGone env.codec job.s3_key w.backends,
    )
  ]

  after_jobs-keeps :
      (jobs : List LogJob) (k : LogJob) (w : World) → IsPruned w k → IsPruned (after_jobs jobs w) k
  after_jobs-keeps [] k w p = p
  after_jobs-keeps (job ∷ jobs) k w p =
      after_jobs-keeps jobs k (after_job job w) (after_job-keeps job k w p)

  after_jobs-prunes :
      (jobs : List LogJob) (w : World)
      → All (PresentIn w) jobs
      → All (IsPruned (after_jobs jobs w)) jobs
  after_jobs-prunes [] w h = tt
  after_jobs-prunes (job ∷ jobs) w h = (
    after_jobs-keeps jobs job (after_job job w) (after_job-prunes job w h.0),
    after_jobs-prunes jobs (after_job job w)
        (All-imp jobs (λ k there. after_job-present job k w there) h.1),
  )

  -- When no call of the database fails and every provider deletes, an expiry succeeds, and then every
  -- done job of the customer whose period ended before the days of retention is expired, and no provider holds its object any more.
  pub process_task-IsPruned :
      (payload : LogExpirePayload) (w : World)
      → All Accepts w.backends
      → let (r, w') = process_task env payload w in
        (r ≡ ok tt)
        × All
            (λ j. IsDue w.now payload.customer_id payload.retention_days j → IsPruned w' j)
            w.db.log_jobs
  unfolding process_task
  process_task-IsPruned payload w accept =
      let jobs = list_expired w.now payload.customer_id payload.retention_days w.db.log_jobs in
      subst
        (λ r.
          (r.0 ≡ ok tt)
          × All (λ j. IsDue w.now payload.customer_id payload.retention_days j → IsPruned r.1 j)
              w.db.log_jobs)
        (sym (
          on_ok _ _ _ w (context_ok _ _ _ (query_runs env _ w (runs w.db_calls)))
          ∙ expire_jobs_lem jobs (counted w) accept))
        (
          refl,
          list_expired-All _ w.now payload.customer_id payload.retention_days w.db.log_jobs (
              after_jobs-prunes jobs (counted w) (
                list_expired-Present w.now payload.customer_id payload.retention_days
                  w.db.log_jobs)),
        )
