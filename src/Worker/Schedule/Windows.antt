-- ===== src/Worker/Schedule/Windows.antt =====
-- The windows for which the scheduler puts tasks on the queue.
use rainlogs.Prelude.{
  ℕ, ◌≡◌, refl, ap, subst, sym, ◌∙◌, ◌≢◌, ◌⊎◌, inl, inr, true, false, ◌==◌, ◌-◌, ◌*◌, ◌/◌, none,
  some, [], ◌∷◌, ◌++◌, Bytes, codes, if◌then◌else◌, update_where, Bool-cases,
}
use rainlogs.Models.{Zone, PlanType}
use rainlogs.Calendar.{second, decimal}
use rainlogs.Db.Zones
use rainlogs.Queue.{
  Task, LogPullPayload, log_pull, security_poll, default, has_task_id, new_log_pull_task,
  new_security_poll_task,
}
use rainlogs.Exec.{
  World, Env, Db, Outcome, ok, pure, on_error, ignoring, enqueue_unique, db_exec, time_now,
}
use rainlogs.Exec.Steps.{
  on_ok, on_err, exec_runs, exec_fails, written, counted, unique_fails, unique_taken, unique_new,
  asked, queued,
}
use rainlogs.Worker.Schedule.{dispatch, task_id, pulled, push_zone, schedule_zone}

-- The window that is due at the time `now`: from the recorded end of the last one, or one interval back.
abbrev pub due_window : Zone → ℕ → LogPullPayload
due_window zone now = record {
  zone_id = zone.id;
  customer_id = zone.customer_id;
  period_start = elim zone.last_pulled_at [
    | none ↦ now - zone.pull_interval_secs * second
    | some t ↦ t
  ];
  period_end = now;
}

-- A poll of security events for a free or pro zone, and a pull of logs for every other.
abbrev pub due_task : Zone → ℕ → Task
due_task zone now = record {
  payload = elim zone.plan [
    | PlanType.free_pro ↦ security_poll (due_window zone now)
    | _ ↦ log_pull (due_window zone now)
  ];
  queue = default;
  max_retry = none;
}

abbrev pub due_word : Zone → Bytes
due_word zone = elim zone.plan [ PlanType.free_pro ↦ codes "sec-" | _ ↦ codes "pull-" ]

-- The identifier of that task, from the zone and the second in which the window starts.
abbrev pub due_id : Env → Zone → ℕ → Bytes
due_id env zone now =
    due_word zone
    ++ (env.codec.uuid_text zone.id
        ++ (codes "-" ++ decimal ((due_window zone now).period_start / second)))

-- The database in which the zone's last_pulled_at is `t`, in microseconds.
abbrev pub pulled_db : Zone → ℕ → Db → Db
pulled_db zone t d = record d {
  zones =
      update_where (λ z. z.id == zone.id)
        (λ z. record z { last_pulled_at = some (t / 1000 * 1000) }) d.zones;
}

-- What one turn of the scheduler does for a zone, from the world `w`.
pub data Turn (env : Env) (zone : Zone) (w : World) : World → Type 0 where
  -- The zone has no pulls, Redis fails, or the task is on the queue already.
  skipped :
      {w' : World}
      → (zone.plan ≡ PlanType.business)
        ⊎ (env.queue_fails w.queue_calls ≡ true)
        ⊎ (has_task_id (due_id env zone w.now) w.queue ≡ true)
      → w'.queue ≡ w.queue
      → w'.db ≡ w.db
      → Turn env zone w w'
  -- The task of the window up to now is on the queue under a new identifier, and last_pulled_at is now,
  -- unless the database refuses that.
  pushed :
      {w' : World}
      → zone.plan ≢ PlanType.business
      → has_task_id (due_id env zone w.now) w.queue ≡ false
      → w'.queue
        ≡ w.queue
          ++ record { task = due_task zone w.now; task_id = some (due_id env zone w.now) } ∷ []
      → (w'.db ≡ pulled_db zone w.now w.db) ⊎ (w'.db ≡ w.db)
      → Turn env zone w w'

abbrev Dispatched : Zone → ℕ → Type 0
Dispatched zone now =
    ((zone.plan ≡ PlanType.business) × (dispatch zone now ≡ none))
    ⊎ ((zone.plan ≢ PlanType.business)
        × (dispatch zone now ≡ some (due_task zone now, due_word zone)))

dispatch_plan :
    (plan : PlanType) (zone : Zone) (now : ℕ) → Dispatched (record zone { plan = plan }) now
unfolding dispatch new_log_pull_task new_security_poll_task
dispatch_plan PlanType.unset zone now = inr ((λ e. cc), refl)
dispatch_plan PlanType.enterprise zone now = inr ((λ e. cc), refl)
dispatch_plan PlanType.business zone now = inl (refl, refl)
dispatch_plan PlanType.free_pro zone now = inr ((λ e. cc), refl)
dispatch_plan (PlanType.other p) zone now = inr ((λ e. cc), refl)

module _ (env : Env) (zone : Zone) (w : World) where
  Ends : Outcome (Unit {0}) × World → Type 0
  Ends r = (r.0 ≡ ok tt) × Turn env zone w r.1

  Ends-via : (r s : Outcome (Unit {0}) × World) → r ≡ s → Ends s → Ends r
  unfolding Ends
  Ends-via r s e = subst (λ r. (r.0 ≡ ok tt) × Turn env zone w r.1) (sym e)

  pure-Ends :
      (w' : World)
      → (zone.plan ≡ PlanType.business)
        ⊎ (env.queue_fails w.queue_calls ≡ true)
        ⊎ (has_task_id (due_id env zone w.now) w.queue ≡ true)
      → w'.queue ≡ w.queue
      → w'.db ≡ w.db
      → Ends (pure tt w')
  unfolding Ends pure
  pure-Ends w' why q d = (refl, skipped why q d)

  abbrev task : Task
  task = due_task zone w.now

  abbrev word : Bytes
  word = due_word zone

  module _ (pulls : zone.plan ≢ PlanType.business)
      (fresh : has_task_id (task_id env word zone w.now) w.queue ≡ false) where
    recorded-Ends : Ends (
        ignoring
          (db_exec env (pulled env zone w.now))
          (pure tt)
          (queued (task_id env word zone w.now) task w))
    unfolding Ends ignoring pure task_id Zones.update_last_pulled
    recorded-Ends =
        let w' = queued (task_id env word zone w.now) task w in
        elim (Bool-cases (env.db_fails w'.db_calls)) [
          | inl e ↦
              Ends-via _ (ok tt, counted w')
                (ap (λ r. (ok tt, r.1)) (exec_fails env (pulled env zone w.now) w' e))
                (refl, pushed pulls fresh refl (inr refl))
          | inr e ↦
              Ends-via _ (ok tt, written (pulled env zone w.now) w')
                (ap (λ r. (ok tt, r.1)) (exec_runs env (pulled env zone w.now) w' e))
                (refl, pushed pulls fresh refl (inl refl))
        ]

  enqueue-Ends :
      zone.plan ≢ PlanType.business
      → Ends (
          on_error
            (enqueue_unique env (task_id env word zone w.now) task)
            (λ e. pure tt)
            (λ added.
              if added then ignoring (db_exec env (pulled env zone w.now)) (pure tt) else pure tt)
            w)
  unfolding task_id
  enqueue-Ends pulls =
      let id = task_id env word zone w.now in
      elim (Bool-cases (env.queue_fails w.queue_calls)) [
        | inl fails ↦
            Ends-via _ _ (on_err _ _ _ w (unique_fails env id task w fails))
              (pure-Ends (asked w) (inr (inl fails)) refl refl)
        | inr runs ↦ elim (Bool-cases (has_task_id id w.queue)) [
          | inl taken ↦
              Ends-via _ _ (on_ok _ _ _ w (unique_taken env id task w runs taken))
                (pure-Ends (asked w) (inr (inr taken)) refl refl)
          | inr fresh ↦
              Ends-via _ _ (on_ok _ _ _ w (unique_new env id task w runs fresh))
                (recorded-Ends pulls fresh)
        ]
      ]

pub schedule_zone-Turn :
    (env : Env) (zone : Zone) (w : World)
    → let (r, w') = schedule_zone env zone w in (r ≡ ok tt) × Turn env zone w w'
unfolding schedule_zone time_now push_zone Ends
schedule_zone-Turn env zone w = elim (dispatch_plan zone.plan zone w.now) [
  | inl (business, idle) ↦
      Ends-via env zone w _ _ (on_ok _ _ _ w refl ∙ ap (λ o. push_zone env zone w.now o w) idle)
        (pure-Ends env zone w w (inl business) refl refl)
  | inr (pulls, dispatched) ↦
      Ends-via env zone w _ _
        (on_ok _ _ _ w refl ∙ ap (λ o. push_zone env zone w.now o w) dispatched)
        (enqueue-Ends env zone w pulls)
]
