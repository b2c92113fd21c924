-- ===== src/Api/Zones.antt =====
-- The zone handlers of internal/api/handlers/handlers.go, after the customer of the request and the
-- path's identifier are known; a body that Bind refuses is `none`.
--
-- A reply is its status with what a success returns. The clock does not move while the healths of a
-- list are told.
pub mod Owner
pub mod Isolation
pub mod Deletion
pub mod Intervals
use rainlogs.Prelude.{
  ℕ, ◌*◌, ◌-◌, Bool, true, false, not, ◌||◌, ◌==◌, ltb, Option, none, some, List, [], ◌∷◌,
  if◌then◌else◌, is_empty, Bytes, ℤ, pos, pos_part, ltb_ℤ,
}
use rainlogs.Models.{Zone, PlanType}
use rainlogs.Calendar.{second}
use rainlogs.Db.Zones
use rainlogs.Queue.{new_log_pull_task}
use rainlogs.Worker.Schedule.{window}
use rainlogs.Exec.{
  Env, Db, Exec, pure, on_error, db_query, db_query_row, db_exec, enqueue, time_now,
}

pub data Health : Type 0 where
  ok stale never_pulled : Health

abbrev pub health_since : (now interval : ℕ) → Option ℕ → Health
health_since now interval none = never_pulled
health_since now interval (some t) = if ltb (interval * 2 * second) (now - t) then stale else ok

-- zoneHealth
abbrev pub zone_health : ℕ → Zone → Health
zone_health now z = health_since now z.pull_interval_secs z.last_pulled_at

abbrev pub with_health : ℕ → List Zone → List (Zone × Health)
with_health now [] = []
with_health now (z ∷ zones) = (z, zone_health now z) ∷ with_health now zones

pub data Reply : Type 0 where
  status : ℕ → Reply
  new_zone_row : Zone → Reply
  one_zone : Zone × Health → Reply
  all_zones : List (Zone × Health) → Reply

pub record CreateZoneRequest : Type 0 where
  pub zone_id : Bytes
  pub name : Bytes
  pub plan : PlanType
  pub pull_interval_secs : ℤ

pub record UpdateZoneRequest : Type 0 where
  pub name : Option Bytes
  pub plan : Option PlanType
  pub pull_interval_secs : Option ℤ
  pub active : Option Bool

abbrev pub or_else {ℓ} : {A : Type ℓ} → Option A → A → A
or_else none a = a
or_else (some b) a = b

abbrev pub or_else_secs : Option ℤ → ℕ → ℕ
or_else_secs none secs = secs
or_else_secs (some v) secs = pos_part v

abbrev pub is_known_plan : PlanType → Bool
is_known_plan PlanType.enterprise = true
is_known_plan PlanType.business = true
is_known_plan PlanType.free_pro = true
is_known_plan _ = false

abbrev pub plan_or_default : PlanType → PlanType
plan_or_default PlanType.unset = PlanType.enterprise
plan_or_default p = p

abbrev pub in_range : ℤ → Bool
in_range secs = not (ltb_ℤ secs (pos 300) || ltb_ℤ (pos 518400) secs)

abbrev pub plan_ok : Option PlanType → Bool
plan_ok none = true
plan_ok (some p) = is_known_plan p

abbrev pub interval_ok : Option ℤ → Bool
interval_ok none = true
interval_ok (some secs) = in_range secs

module _ (env : Env) (customer : ℕ) where
  abbrev pub new_zone : ℕ → CreateZoneRequest → Zone
  new_zone new_id req = record {
    id = new_id;
    customer_id = customer;
    zone_id = req.zone_id;
    name = req.name;
    plan = plan_or_default req.plan;
    pull_interval_secs = pos_part req.pull_interval_secs;
    last_pulled_at = none;
    active = true;
    created_at = 0;
    deleted_at = none;
  }

  abbrev pub insert_zone : Zone → Db → ℕ → Db
  insert_zone z d now = record d { zones = Zones.create now z d.zones }

  -- CreateZone. The insert returns the time of the row.
  unfoldable pub create_zone : ℕ → Option CreateZoneRequest → Exec Reply
  create_zone new_id none = pure (status 400)
  create_zone new_id (some req) =
      if is_empty req.zone_id || is_empty req.name || not (in_range req.pull_interval_secs)
      then pure (status 400)
      else if not (is_known_plan (plan_or_default req.plan))
      then pure (status 400)
      else on_error (db_exec env (insert_zone (new_zone new_id req))) (λ e. pure (status 500))
          λ _.
            on_error time_now (λ e. pure (status 500))
              (λ now. pure (new_zone_row (record (new_zone new_id req) { created_at = now })))

  -- ListZones
  unfoldable pub list_zones : Exec Reply
  list_zones =
      on_error (db_query env (λ d _. Zones.list_by_customer customer d.zones))
        (λ e. pure (status 500))
        λ zones.
          on_error time_now (λ e. pure (status 500))
            (λ now. pure (all_zones (with_health now zones)))

  -- GetByID and the test of the owner, which three handlers begin with.
  unfoldable pub with_own_zone : ℕ → (Zone → Exec Reply) → Exec Reply
  with_own_zone zone_id next =
      on_error (db_query_row env (λ d _. Zones.get_by_id zone_id d.zones)) (λ e. pure (status 404))
        (λ zone. if not (zone.customer_id == customer) then pure (status 403) else next zone)

  abbrev pub remove_zone : ℕ → Db → ℕ → Db
  remove_zone zone_id d now = record d { zones = Zones.delete now zone_id d.zones }

  unfoldable pub delete_own : ℕ → Zone → Exec Reply
  delete_own zone_id zone =
      on_error (db_exec env (remove_zone zone_id)) (λ e. pure (status 500)) (λ _. pure (status 204))

  -- DeleteZone
  unfoldable pub delete_zone : ℕ → Exec Reply
  delete_zone zone_id = with_own_zone zone_id (delete_own zone_id)

  abbrev pub change_zone : ℕ → UpdateZoneRequest → Zone → Db → ℕ → Db
  change_zone zone_id req zone d now = record d {
    zones =
        Zones.update zone_id customer (or_else req.name zone.name) (or_else req.plan zone.plan)
          (or_else_secs req.pull_interval_secs zone.pull_interval_secs)
          (or_else req.active zone.active) d.zones;
  }

  unfoldable pub update_own : ℕ → UpdateZoneRequest → Zone → Exec Reply
  update_own zone_id req zone =
      if not (plan_ok req.plan)
      then pure (status 400)
      else if not (interval_ok req.pull_interval_secs)
      then pure (status 400)
      else on_error (db_exec env (change_zone zone_id req zone)) (λ e. pure (status 500))
          λ _.
            on_error (db_query_row env (λ d _. Zones.get_by_id zone_id d.zones))
              (λ e. pure (status 500))
              λ updated.
                on_error time_now (λ e. pure (status 500))
                  (λ now. pure (one_zone (updated, zone_health now updated)))

  -- UpdateZone
  unfoldable pub update_zone : ℕ → Option UpdateZoneRequest → Exec Reply
  update_zone zone_id none = pure (status 400)
  update_zone zone_id (some req) = with_own_zone zone_id (update_own zone_id req)

  unfoldable pub pull_own : Zone → Exec Reply
  pull_own zone =
      on_error time_now (λ e. pure (status 500))
        λ now.
          on_error
            (enqueue env (new_log_pull_task (record (window zone now) { customer_id = customer })))
            (λ e. pure (status 500)) (λ _. pure (status 202))

  -- TriggerPull
  unfoldable pub trigger_pull : ℕ → Exec Reply
  trigger_pull zone_id = with_own_zone zone_id pull_own
