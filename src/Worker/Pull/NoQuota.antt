-- ===== src/Worker/Pull/NoQuota.antt =====
-- A pull for a customer whose quota is 0.
use rainlogs.Prelude.{
  ℕ, ◌+◌, ◌≡◌, refl, sym, subst, arith, true, some, List, Bool-cases, Option-cases, inl, inr,
  le→leb, pos, codes, contains,
}
use rainlogs.GoError.{GoError, error_text, wrap}
use rainlogs.Storage.{Backend}
use rainlogs.Models.{LogJob, Customer, Zone}
use rainlogs.Db.Customers
use rainlogs.Db.Zones
use rainlogs.Db.LogJobs
use rainlogs.Queue.{LogPullPayload}
use rainlogs.Exec.{
  World, Env, Db, Outcome, pure, raise, ignoring, on_error, db_exec, db_query_row, send_alert,
}
use rainlogs.Exec.Steps.{
  on_ok, on_err, context_ok, context_err, exec_fails, exec_runs, query_fails, query_runs, row_fails,
  row_found, row_missing, counted,
}
use rainlogs.Worker.Pull.{
  Inputs, new_job, created_world, fail_job, refuse, check_quota, load, process_task, over_quota,
}

reached : (usage : ℕ) → over_quota usage (pos 0) ≡ true
reached usage = le→leb 0 (usage + 0) (omega arith)

module _ (env : Env) where
  abbrev Leaves : List Backend → Outcome (Unit {0}) × World → Type 0
  Leaves bs s = s.1.backends ≡ bs

  exec-backends : (f : Db → ℕ → Db) (w : World) → (db_exec env f w).1.backends ≡ w.backends
  unfolding db_exec
  exec-backends f w = elim (Bool-cases (env.db_fails w.db_calls)) [
    | inl fails ↦ rw (fails, db_exec) refl
    | inr runs ↦ rw (runs, db_exec) refl
  ]

  fail_job-backends :
      (job : LogJob) (e : GoError) (w : World) → (fail_job env job e w).1.backends ≡ w.backends
  unfolding fail_job ignoring pure raise
  fail_job-backends job e w = elim (Bool-cases (contains (error_text e) (codes "HTTP 403"))) [
    | inl hidden ↦ rw hidden (exec-backends _ w)
    | inr shown ↦ rw shown (exec-backends _ w)
  ]

  module _ (inputs : Inputs) (payload : LogPullPayload) (c : Customer)
      (spent : c.quota_bytes ≡ pos 0) (job : LogJob) where
    check_quota-backends :
        (z : Zone) (w : World) → Leaves w.backends (check_quota env inputs payload job c z w)
    unfolding check_quota refuse ignoring send_alert
    check_quota-backends z w = elim (Bool-cases (env.db_fails w.db_calls)) [
      | inl fails ↦ rw (spent) (
          subst (Leaves w.backends) (sym (on_err _ _ _ w (query_fails env _ w fails)))
            (fail_job-backends job _ (counted w)))
      | inr runs ↦ rw (spent) (
          subst (Leaves w.backends) (sym (on_ok _ _ _ w (query_runs env _ w runs))) (
            rw (reached (LogJobs.get_current_usage w.now c.id w.db.log_jobs))
              (fail_job-backends job _ _)))
    ]

    load-backends :
        (w : World)
        → Customers.get_by_id payload.customer_id w.db.customers ≡ some c
        → Leaves w.backends (load env inputs payload job w)
    unfolding load
    load-backends w row = elim (Bool-cases (env.db_fails w.db_calls)) [
      | inl fails ↦
          subst (Leaves w.backends) (sym (on_err _ _ _ w (row_fails env _ w fails)))
            (fail_job-backends job _ (counted w))
      | inr runs ↦
          subst (Leaves w.backends) (sym (on_ok _ _ _ w (row_found env _ w runs row)))
            (zone_read (counted w))
    ]
      where
        zone_read :
            (w : World)
            → Leaves w.backends (
                on_error
                  (db_query_row env (λ d _. Zones.get_by_id payload.zone_id d.zones))
                  (λ e. fail_job env job (wrap (codes "get zone") e))
                  (check_quota env inputs payload job c)
                  w)
        zone_read w = elim (Bool-cases (env.db_fails w.db_calls)) [
          | inl fails ↦
              subst (Leaves w.backends) (sym (on_err _ _ _ w (row_fails env _ w fails)))
                (fail_job-backends job _ (counted w))
          | inr runs ↦ elim (Option-cases (Zones.get_by_id payload.zone_id w.db.zones)) [
            | inl missing ↦
                subst (Leaves w.backends) (sym (on_err _ _ _ w (row_missing env _ w runs missing)))
                  (fail_job-backends job _ (counted w))
            | inr (z, found) ↦
                subst (Leaves w.backends) (sym (on_ok _ _ _ w (row_found env _ w runs found)))
                  (check_quota-backends z (counted w))
          ]
        ]

-- A pull for a customer whose quota is 0 stores nothing, whatever was used before and whatever fails.
pub process_task-no_quota :
    (env : Env) (inputs : Inputs) (payload : LogPullPayload) (c : Customer)
    → c.quota_bytes ≡ pos 0
    → (w : World) → Customers.get_by_id payload.customer_id w.db.customers ≡ some c
    → (process_task env inputs payload w).1.backends ≡ w.backends
unfolding process_task raise
process_task-no_quota env inputs payload c spent w row =
    elim (Bool-cases (env.db_fails w.db_calls)) [
      | inl fails ↦
          subst (Leaves env w.backends)
            (sym (on_err _ _ _ w (context_err _ _ w (exec_fails env _ w fails)))) refl
      | inr runs ↦
          let job = new_job inputs.new_id payload in
          subst (Leaves env w.backends)
            (sym (on_ok _ _ _ w (context_ok _ _ w (exec_runs env _ w runs))))
            (load-backends env inputs payload c spent job (created_world env job w) row)
    ]
