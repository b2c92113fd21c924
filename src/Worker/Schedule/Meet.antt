-- ===== src/Worker/Schedule/Meet.antt =====
-- Whether the periods of the tasks that two turns of the scheduler enqueue for a zone meet.
use rainlogs.Prelude.{
  ℕ, ◌<◌, ◌≤◌, ◌+◌, ◌*◌, ◌/◌, ◌≡◌, refl, ap, sym, ◌∙◌, ◌≢◌, inl, inr, arith, Bool, ==_iff,
  find_first, find_first_hit, find_first_miss, ◌&&◌, ◌==◌, Option, none, some, [], ◌∷◌, ◌++◌,
  if◌then◌else◌, Bool-cases,
}
use rainlogs.Models.{Zone, PlanType}
use rainlogs.Db.Zones
use rainlogs.Queue.{Entry, Payload, LogPullPayload, log_pull, security_poll}
use rainlogs.Exec.{World, Env}
use rainlogs.Worker.Schedule.{schedule_zone}
use rainlogs.Worker.Schedule.Windows.{
  Turn, skipped, pushed, due_window, due_task, due_id, schedule_zone-Turn,
}

-- The period for which a task asks for logs or security events.
abbrev pub asked_period : Payload → Option LogPullPayload
asked_period p = elim p [ log_pull q ↦ some q | security_poll q ↦ some q | _ ↦ none ]

-- A turn put one task on the queue, for that period.
abbrev pub Adds : World → World → LogPullPayload → Type 0
Adds w w' p = (e : Entry) × (w'.queue ≡ w.queue ++ e ∷ []) × (asked_period e.task.payload ≡ some p)

get_by_id-update_last_pulled :
    (id t : ℕ) (zs : Zones.Table) {z : Zone}
    → Zones.get_by_id id (Zones.update_last_pulled id t zs) ≡ some z
    → (z.id ≡ id) × (z.last_pulled_at ≡ some (t / 1000 * 1000))
unfolding Zones.get_by_id Zones.update_last_pulled
get_by_id-update_last_pulled id t [] found = ground arith
get_by_id-update_last_pulled id t (x ∷ zs) {z} found =
    let live : Zone → Bool = λ z. (z.id == id) && Zones.is_live z in
    let after : Zone = record x { last_pulled_at = some (t / 1000 * 1000) } in
    elim (Bool-cases (x.id == id)) [
      | inl same ↦ elim (Bool-cases (Zones.is_live x)) [
        | inl alive ↦
            let first : some after ≡ some z =
              sym (find_first_hit live after _ (rw (same, alive) refl))
              ∙ ap (λ y. find_first live (y ∷ Zones.update_last_pulled id t zs))
                  (sym (ap (λ b. if b then after else x) same))
              ∙ found in
            let is_z : after ≡ z =
              ap (λ o. elim o as (λ _. Zone) [ some z ↦ z | none ↦ after ]) first in
            (
              ap (λ z. z.id) (sym is_z) ∙ (==_iff x.id id).0 same,
              ap (λ z. z.last_pulled_at) (sym is_z),
            )
        | inr gone ↦ get_by_id-update_last_pulled id t zs {z = z} (
            sym (find_first_miss live after _ (rw (same, gone) refl))
            ∙ ap (λ y. find_first live (y ∷ Zones.update_last_pulled id t zs))
                (sym (ap (λ b. if b then after else x) same))
            ∙ found)
      ]
      | inr other ↦ get_by_id-update_last_pulled id t zs {z = z} (
          sym (find_first_miss live x _ (rw other refl))
          ∙ ap (λ y. find_first live (y ∷ Zones.update_last_pulled id t zs))
              (sym (ap (λ b. if b then after else x) other))
          ∙ found)
    ]

task_period :
    (plan : PlanType) (zone : Zone) (now : ℕ)
    → asked_period (due_task (record zone { plan = plan }) now).payload
      ≡ some (due_window (record zone { plan = plan }) now)
task_period PlanType.unset zone now = refl
task_period PlanType.enterprise zone now = refl
task_period PlanType.business zone now = refl
task_period PlanType.free_pro zone now = refl
task_period (PlanType.other p) zone now = refl

Turn-Adds :
    (env : Env) (zone : Zone) (w w' : World)
    → Turn env zone w w'
    → w'.queue ≢ w.queue
    → Adds w w' (due_window zone w.now)
Turn-Adds env zone w w' (skipped why q d) changed = absurd (changed q)
Turn-Adds env zone w w' (pushed pulls fresh q d) changed = (
  record { task = due_task zone w.now; task_id = some (due_id env zone w.now) },
  q,
  task_period zone.plan zone w.now,
)

-- A turn that moved last_pulled_at enqueued a task too.
Turn-moved :
    (env : Env) (zone next : Zone) (w w' : World)
    → Turn env zone w w'
    → w'.db ≢ w.db
    → Zones.get_by_id zone.id w'.db.zones ≡ some next
    → Adds w w' (due_window zone w.now)
      × (next.id ≡ zone.id)
      × (next.last_pulled_at ≡ some (w.now / 1000 * 1000))
unfolding Zones.update_last_pulled
Turn-moved env zone next w w' (skipped why q d) changed found = absurd (changed d)
Turn-moved env zone next w w' (pushed pulls fresh q (inr d)) changed found = absurd (changed d)
Turn-moved env zone next w w' (pushed pulls fresh q (inl d)) changed found =
    let (same, last) =
      get_by_id-update_last_pulled zone.id w.now w.db.zones {z = next}
        (ap (λ d. Zones.get_by_id zone.id d.zones) (sym d) ∙ found) in
    (
      (
        record { task = due_task zone w.now; task_id = some (due_id env zone w.now) },
        q,
        task_period zone.plan zone w.now,
      ),
      same,
      last,
    )

below_round : (t : ℕ) → (t / 1000 * 1000 ≤ t) × (t < t / 1000 * 1000 + 1000)
below_round t = (omega arith, omega arith)

-- Where a turn recorded its window in the zone's row, and a later turn for that row enqueues a task, the
-- two tasks are for one zone, and the period of the second starts where that of the first ended, or less
-- than a microsecond earlier: there is no gap, and no more overlap than the column's rounding makes.
pub schedule_zone-Adds :
    (env : Env) (zone next : Zone) (w later : World)
    → let w' = (schedule_zone env zone w).1 in
      w'.db ≢ w.db
      → Zones.get_by_id zone.id w'.db.zones ≡ some next
      → (schedule_zone env next later).1.queue ≢ later.queue
      → (p : LogPullPayload) × (q : LogPullPayload) × Adds w w' p
        × Adds later (schedule_zone env next later).1 q
        × (q.zone_id ≡ p.zone_id)
        × (q.period_start ≤ p.period_end)
        × (p.period_end < q.period_start + 1000)
schedule_zone-Adds env zone next w later moved found enqueued =
    let (first, same, last) =
      Turn-moved env zone next w _ (schedule_zone-Turn env zone w).1 moved found in
    let start : (due_window next later.now).period_start ≡ w.now / 1000 * 1000 = rw last refl in
    let (low, high) = below_round w.now in
    (
      due_window zone w.now,
      due_window next later.now,
      first,
      Turn-Adds env next later _ (schedule_zone-Turn env next later).1 enqueued,
      same,
      rw start low,
      rw start high,
    )
