-- ===== src/Worker/Schedule.antt =====
-- ZoneScheduler of internal/worker/worker.go: schedule and scheduleExpiry.
--
-- The zones that a turn visits are those that ListDue returned at its start; `time.Now()` in a turn is
-- the clock of the world. A time before 1970, which a long interval could only give then, is 0.
pub mod Windows
pub mod Meet
use rainlogs.Prelude.{
  ℕ, ◌-◌, ◌*◌, ◌/◌, Bool, true, false, Option, none, some, List, [], ◌∷◌, ◌++◌, if◌then◌else◌,
  Bytes, codes,
}
use rainlogs.Models.{Zone, Customer, PlanType}
use rainlogs.Calendar.{second, day, decimal, date_of, padded}
use rainlogs.Db.Zones
use rainlogs.Db.Customers
use rainlogs.Queue.{
  Task, LogPullPayload, LogExpirePayload, new_log_pull_task, new_security_poll_task,
  new_log_expire_task,
}
use rainlogs.Exec.{
  Env, Db, World, Exec, pure, on_error, ignoring, db_query, db_exec, enqueue_unique, time_now,
}

abbrev pub window_start : Zone → ℕ → ℕ
window_start zone now = elim zone.last_pulled_at [
  | none ↦ now - zone.pull_interval_secs * second
  | some t ↦ t
]

abbrev pub window : Zone → ℕ → LogPullPayload
window zone now = record {
  zone_id = zone.id;
  customer_id = zone.customer_id;
  period_start = window_start zone now;
  period_end = now;
}

-- The dispatch on the plan: the task and the word that its identifier starts with.
unfoldable pub dispatch : Zone → ℕ → Option (Task × Bytes)
dispatch zone now = elim zone.plan [
  | PlanType.enterprise ↦ some (new_log_pull_task (window zone now), codes "pull-")
  | PlanType.free_pro ↦ some (new_security_poll_task (window zone now), codes "sec-")
  | PlanType.business ↦ none
  | _ ↦ some (new_log_pull_task (window zone now), codes "pull-")
]

module _ (env : Env) where
  unfoldable pub task_id : Bytes → Zone → ℕ → Bytes
  task_id word zone now =
      word
      ++ (env.codec.uuid_text zone.id ++ (codes "-" ++ decimal (window_start zone now / second)))

  abbrev pub pulled : Zone → ℕ → Db → ℕ → Db
  pulled zone t d now = record d { zones = Zones.update_last_pulled zone.id t d.zones }

  -- A task that is there already, or cannot be enqueued, leaves the zone as it is, and a failing
  -- update is only logged.
  unfoldable pub push_zone : Zone → ℕ → Option (Task × Bytes) → Exec (Unit {0})
  push_zone zone now none = pure tt
  push_zone zone now (some (task, word)) =
      on_error (enqueue_unique env (task_id word zone now) task) (λ e. pure tt)
        λ added. if added then ignoring (db_exec env (pulled zone now)) (pure tt) else pure tt

  -- One turn of the loop.
  unfoldable pub schedule_zone : Zone → Exec (Unit {0})
  schedule_zone zone =
      on_error time_now (λ e. pure tt) λ now. push_zone zone now (dispatch zone now)

  unfoldable pub schedule_zones : List Zone → Exec (Unit {0})
  schedule_zones [] = pure tt
  schedule_zones (zone ∷ zones) = ignoring (schedule_zone zone) (schedule_zones zones)

  -- schedule
  unfoldable pub schedule : Exec (Unit {0})
  schedule =
      on_error (db_query env (λ d now. Zones.list_due now d.zones)) (λ e. pure tt) schedule_zones

  unfoldable pub expiry_id : Customer → ℕ → Bytes
  expiry_id c now =
      let d = date_of (now / day) in
      codes "expire-"
      ++ (env.codec.uuid_text c.id
          ++ (codes "-"
              ++ (padded 4 d.year
                  ++ (codes "-" ++ (padded 2 d.month ++ (codes "-" ++ padded 2 d.day_of_month))))))

  -- A task of this day that is there already, or cannot be enqueued, is passed over.
  unfoldable pub push_expiry : Customer → ℕ → Exec (Unit {0})
  push_expiry c now =
      on_error
        (enqueue_unique env (expiry_id c now)
          (new_log_expire_task (record { customer_id = c.id; retention_days = c.retention_days })))
        (λ e. pure tt) (λ added. pure tt)

  unfoldable pub expire_customer : Customer → Exec (Unit {0})
  expire_customer c =
      if Customers.is_live c then on_error time_now (λ e. pure tt) (push_expiry c) else pure tt

  unfoldable pub expire_customers : List Customer → Exec (Unit {0})
  expire_customers [] = pure tt
  expire_customers (c ∷ cs) = ignoring (expire_customer c) (expire_customers cs)

  -- scheduleExpiry
  unfoldable pub schedule_expiry : Exec (Unit {0})
  schedule_expiry =
      on_error (db_query env (λ d _. Customers.list d.customers)) (λ e. pure tt) expire_customers
