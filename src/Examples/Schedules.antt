-- ===== src/Examples/Schedules.antt =====
-- The scheduler in the small world.
use rainlogs.Prelude.{
  ◌+◌, ◌*◌, ◌/◌, ◌≤◌, ◌<◌, ◌≡◌, refl, sym, ap, ◌∙◌, ◌≢◌, arith, Bool, true, false, none, some, List,
  [], ◌∷◌,
}
use rainlogs.Models.{Zone}
use rainlogs.Calendar.{hour}
use rainlogs.Db.Zones
use rainlogs.Queue.{LogPullPayload, Entry, has_task_id}
use rainlogs.Exec.{World, time_now, on_error, enqueue_unique, db_exec, ignoring, pure}
use rainlogs.Worker.Schedule.{schedule_zone, push_zone, dispatch}
use rainlogs.Worker.Schedule.Meet.{Adds, schedule_zone-Adds}
use rainlogs.Examples.Setup.{env, zone, world, noon}

abbrev pulled_zone : Zone
pulled_zone = record zone { last_pulled_at = some (world.now / 1000 * 1000) }

zones_after : (schedule_zone env zone world).1.db.zones ≡ pulled_zone ∷ []
unfolding schedule_zone time_now on_error push_zone dispatch enqueue_unique db_exec ignoring pure
    has_task_id Zones.update_last_pulled
zones_after = refl

found_after : Zones.get_by_id 2 (schedule_zone env zone world).1.db.zones ≡ some pulled_zone
unfolding Zones.get_by_id
found_after = ap (Zones.get_by_id 2) zones_after

abbrev was_pulled : List Zone → Bool
was_pulled [] = false
was_pulled (z ∷ zs) = elim z.last_pulled_at [ none ↦ false | some t ↦ true ]

changed_after : (schedule_zone env zone world).1.db ≢ world.db
changed_after e =
    let seen : true ≡ false = sym (ap was_pulled zones_after) ∙ ap (λ d. was_pulled d.zones) e in
    ground (arith, seen)

abbrev evening : World
evening = record world { now = noon + 9 * hour }

abbrev has_entry : List Entry → Bool
has_entry [] = false
has_entry (e ∷ es) = true

entry_after : has_entry (schedule_zone env pulled_zone evening).1.queue ≡ true
unfolding schedule_zone time_now on_error push_zone dispatch enqueue_unique db_exec ignoring pure
    has_task_id
entry_after = refl

enqueued_after : (schedule_zone env pulled_zone evening).1.queue ≢ evening.queue
enqueued_after e =
    let seen : true ≡ false = sym entry_after ∙ ap has_entry e in ground (arith, seen)

schedule_zone-Adds_example :
    (p : LogPullPayload) × (q : LogPullPayload) × Adds world (schedule_zone env zone world).1 p
    × Adds evening (schedule_zone env pulled_zone evening).1 q
    × (q.zone_id ≡ p.zone_id)
    × (q.period_start ≤ p.period_end)
    × (p.period_end < q.period_start + 1000)
schedule_zone-Adds_example =
    schedule_zone-Adds env zone pulled_zone world evening changed_after found_after enqueued_after
