-- ===== src/Worker/Expire/Retention.antt =====
-- Which jobs an expiry touches.
use rainlogs.Prelude.{
  ℕ, ◌≡◌, refl, ap, ◌∙◌, ◌≢◌, inl, inr, arith, Bool, true, false, ◌&&◌, ltb, ◌+◌, ◌*◌, List, [],
  ◌∷◌, ◌==◌, ==_iff, Bool-cases, All, select, select_hit, select_miss, ltb→lt, ◌<◌,
}
use rainlogs.Models.{LogJob, JobStatus, is_done}
use rainlogs.Calendar.{day}
use rainlogs.Db.LogJobs
use rainlogs.Db.Selected.{select-All_only}
use rainlogs.Db.LogJobs.{has_id, get_by_id, list_expired, mark_expired}
use rainlogs.Queue.{LogExpirePayload}
use rainlogs.Exec.{World, Env, Db, raise}
use rainlogs.Exec.Keeps.{
  Keeps, db_exec-Keeps, ignoring-Keeps, on_error-Keeps, if-Keeps, pure-Keeps, delete_object-Keeps,
}
use rainlogs.Exec.Steps.{on_ok, on_err, context_ok, context_err, query_runs, query_fails, counted}
use rainlogs.Worker.Expire.{expire, expire_jobs, process_task}

-- The update of another job's rows is not seen.
pub get_by_id-mark_expired_ne :
    (now i id : ℕ) (t : LogJobs.Table)
    → i ≢ id
    → get_by_id id (mark_expired now i t) ≡ get_by_id id t
unfolding get_by_id mark_expired
get_by_id-mark_expired_ne now i id [] h = refl
get_by_id-mark_expired_ne now i id (j ∷ t) h = ground (arith, get_by_id-mark_expired_ne now i id t)

-- A row that ListExpired returns: the customer's, done, and past its retention.
abbrev pub IsDue : (now customer retention_days : ℕ) → LogJob → Type 0
IsDue now customer retention_days j =
    (j.customer_id ≡ customer)
    × (j.status ≡ JobStatus.done)
    × (j.period_end + retention_days * day < now)

pub is_done→done : (s : JobStatus) → is_done s ≡ true → s ≡ JobStatus.done
is_done→done JobStatus.done h = refl
is_done→done JobStatus.pending h = cc
is_done→done JobStatus.running h = cc
is_done→done JobStatus.failed h = cc
is_done→done JobStatus.expired h = cc

pub select-All {ℓ κ} :
    {A : Type ℓ} (p : A → Bool) (P : A → Type κ) (xs : List A)
    → All (λ x. p x ≡ true → P x) xs
    → All P (select p xs)
select-All p P [] h = tt
select-All p P (x ∷ xs) h = elim (Bool-cases (p x)) [
  | inl hit ↦ rw (select_hit p x xs hit) (h.0 hit, select-All p P xs h.1)
  | inr miss ↦ rw (select_miss p x xs miss) (select-All p P xs h.1)
]

pub All-imp {ℓ κ μ} :
    {A : Type ℓ} {P : A → Type κ} {Q : A → Type μ} (xs : List A)
    → ((x : A) → P x → Q x)
    → All P xs
    → All Q xs
All-imp [] f h = tt
All-imp (x ∷ xs) f h = (f x h.0, All-imp xs f h.1)

and_cases : (a b c : Bool) → (a && b && c) ≡ true → (a ≡ true) × (b ≡ true) × (c ≡ true)
and_cases true true true h = (refl, refl, refl)
and_cases true true false h = cc
and_cases true false c h = cc
and_cases false b c h = cc

test-IsDue :
    (now customer days : ℕ) (j : LogJob)
    → ((j.customer_id == customer) && is_done j.status && ltb (j.period_end + days * day) now)
      ≡ true
    → IsDue now customer days j
test-IsDue now customer days j h =
    let (c, s, p) = and_cases _ _ _ h in ((==_iff _ _).0 c, is_done→done _ s, ltb→lt _ _ p)

IsDue-test :
    (now customer days : ℕ) (j : LogJob)
    → IsDue now customer days j
    → ((j.customer_id == customer) && is_done j.status && ltb (j.period_end + days * day) now)
      ≡ true
IsDue-test now customer days j (own, finished, past) =
    rw ((==_iff _ _).1 own, ap is_done finished) (ground arith)

-- The query misses no row that is due.
pub list_expired-All {κ} :
    (P : LogJob → Type κ) (now customer days : ℕ) (t : LogJobs.Table)
    → All P (list_expired now customer days t)
    → All (λ j. IsDue now customer days j → P j) t
unfolding list_expired
list_expired-All P now customer days t h =
    All-imp t (λ j p due. p (IsDue-test now customer days j due)) (select-All_only P _ t h)

list_expired-others :
    (now customer days id : ℕ) (t : LogJobs.Table)
    → All (λ j. j.id ≡ id → ¬ IsDue now customer days j) t
    → All (λ j. j.id ≢ id) (list_expired now customer days t)
unfolding list_expired
list_expired-others now customer days id t h =
    select-All _ _ t
      (All-imp t (λ j spare due same. spare same (test-IsDue now customer days j due)) h)

module _ (env : Env) (id : ℕ) (d₀ : Db) where
  -- Every other table, and the row of the job `id`, are as in `d₀`.
  pub record Spared (d : Db) : Type 0 where
    pub row : get_by_id id d.log_jobs ≡ get_by_id id d₀.log_jobs
    pub customers : d.customers ≡ d₀.customers
    pub api_keys : d.api_keys ≡ d₀.api_keys
    pub zones : d.zones ≡ d₀.zones
    pub log_exports : d.log_exports ≡ d₀.log_exports
    pub audit_events : d.audit_events ≡ d₀.audit_events

  Spared-refl : Spared d₀
  Spared-refl = record {
    row = refl;
    customers = refl;
    api_keys = refl;
    zones = refl;
    log_exports = refl;
    audit_events = refl;
  }

  expire-Spared :
      (job : LogJob) → job.id ≢ id → (d : Db) (now : ℕ) → Spared d → Spared (expire env job d now)
  expire-Spared job other d now s = record {
    row = get_by_id-mark_expired_ne now job.id id d.log_jobs other ∙ s.row;
    customers = s.customers;
    api_keys = s.api_keys;
    zones = s.zones;
    log_exports = s.log_exports;
    audit_events = s.audit_events;
  }

  expire_jobs-Spared :
      (jobs : List LogJob) → All (λ j. j.id ≢ id) jobs → Keeps Spared (expire_jobs env jobs)
  unfolding expire_jobs
  expire_jobs-Spared [] h = pure-Keeps tt
  expire_jobs-Spared (job ∷ jobs) h =
      let rest = expire_jobs-Spared jobs h.1 in
      let marked =
        ignoring-Keeps _ _ (db_exec-Keeps env (expire env job) (expire-Spared job h.0)) rest in
      if-Keeps _ _ _ marked
        (on_error-Keeps _ _ _ (delete_object-Keeps env job.s3_key) (λ e. rest) (λ _. marked))

-- An expiry changes no row of another table, and no job that has not outlived its retention: where no
-- row of its identifier is the customer's, done and past the retention, the job's row is as before.
-- That holds whichever calls of the database and of the providers fail.
pub process_task-Spared :
    (env : Env) (payload : LogExpirePayload) (id : ℕ) (w : World)
    → All
        (λ j. j.id ≡ id → ¬ IsDue w.now payload.customer_id payload.retention_days j)
        w.db.log_jobs
    → Spared env id w.db (process_task env payload w).1.db
unfolding process_task raise
process_task-Spared env payload id w spare = elim (Bool-cases (env.db_fails w.db_calls)) [
  | inl fails ↦
      rw (on_err _ _ _ w (context_err _ _ _ (query_fails env _ w fails))) (Spared-refl env id w.db)
  | inr runs ↦ rw (on_ok _ _ _ w (context_ok _ _ _ (query_runs env _ w runs))) (
      (expire_jobs-Spared env id w.db _ (
          list_expired-others w.now payload.customer_id payload.retention_days id w.db.log_jobs
            spare)).at
        (counted w) (Spared-refl env id w.db))
]
