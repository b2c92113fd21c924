-- ===== src/Api/Zones/Intervals.antt =====
-- The pull intervals that the zone handlers let into the table.
use rainlogs.Prelude.{
  ℕ, ◌≡◌, ◌≤◌, refl, inl, inr, arith, Bool, true, false, not, ◌||◌, ◌&&◌, ◌==◌, Option, none, some,
  List, [], ◌∷◌, update_where, is_empty, Bytes, Bool-cases, All, All-append, ℤ, pos, negsuc,
  pos_part,
}
use rainlogs.Models.{Zone, PlanType}
use rainlogs.Db.Zones
use rainlogs.Queue.{new_log_pull_task}
use rainlogs.Worker.Schedule.{window}
use rainlogs.Exec.{World, Env, Db, Exec}
use rainlogs.Exec.Keeps.{
  Keeps, enqueue-Keeps, time_now-Keeps, db_exec-Keeps, on_error-Keeps, if-Keeps, if_known-Keeps,
  pure-Keeps, db_query_row-Keeps,
}
use rainlogs.Exec.Steps.{counted}
use rainlogs.Api.Zones.{
  Reply, status, new_zone_row, one_zone, zone_health, in_range, is_known_plan, plan_or_default,
  plan_ok, interval_ok, or_else_secs, CreateZoneRequest, UpdateZoneRequest, new_zone, insert_zone,
  create_zone, remove_zone, delete_own, delete_zone, change_zone, update_own, update_zone, pull_own,
  trigger_pull, with_own_zone,
}
use rainlogs.Api.Zones.Owner.{find_first-All, with_own_zone_cases}

-- From five minutes to six days, in seconds.
abbrev pub IsSafe : ℕ → Type 0
IsSafe secs = (300 ≤ secs) × (secs ≤ 518400)

abbrev pub AreSafe : List Zone → Type 0
AreSafe = All (λ z. IsSafe z.pull_interval_secs)

in_range→IsSafe : (secs : ℤ) → in_range secs ≡ true → IsSafe (pos_part secs)
in_range→IsSafe (pos n) h = ground arith
in_range→IsSafe (negsuc n) h = ground arith

update_where-All :
    (P : Zone → Type 0) (p : Zone → Bool) (f : Zone → Zone) (t : Zones.Table)
    → ((z : Zone) → P z → P (f z))
    → All P t
    → All P (update_where p f t)
update_where-All P p f [] keep h = tt
update_where-All P p f (z ∷ t) keep h =
    let rest = update_where-All P p f t keep h.1 in
    elim (Bool-cases (p z)) [ inl hit ↦ rw hit (keep z h.0, rest) | inr miss ↦ rw miss (h.0, rest) ]

create-AreSafe :
    (now : ℕ) (z : Zone) (t : Zones.Table)
    → IsSafe z.pull_interval_secs
    → AreSafe t
    → AreSafe (Zones.create now z t)
unfolding Zones.create
create-AreSafe now z t safe h = All-append _ t _ h (safe, tt)

delete-AreSafe : (now id : ℕ) (t : Zones.Table) → AreSafe t → AreSafe (Zones.delete now id t)
unfolding Zones.delete
delete-AreSafe now id t h =
    update_where-All _ (λ z. (z.id == id) && Zones.is_live z)
      (λ z. record z { deleted_at = some now }) t (λ z s. s) h

update-AreSafe :
    (id customer : ℕ) (name : Bytes) (plan : PlanType) (secs : ℕ) (active : Bool) (t : Zones.Table)
    → IsSafe secs
    → AreSafe t
    → AreSafe (Zones.update id customer name plan secs active t)
unfolding Zones.update
update-AreSafe id customer name plan secs active t safe h =
    update_where-All _ (λ z. (z.id == id) && (z.customer_id == customer) && Zones.is_live z)
      (λ z. record z { name = name; plan = plan; pull_interval_secs = secs; active = active }) t
      (λ z s. safe) h

last_false : (a b c : Bool) → (a || b || not c) ≡ false → c ≡ true
last_false a b true h = refl
last_false true b false h = cc
last_false false true false h = cc
last_false false false false h = cc

unnegated : (b : Bool) → not b ≡ false → b ≡ true
unnegated true h = refl
unnegated false h = cc

or_else_secs-IsSafe :
    (secs : Option ℤ) (old : ℕ)
    → interval_ok secs ≡ true
    → IsSafe old
    → IsSafe (or_else_secs secs old)
or_else_secs-IsSafe none old ok safe = safe
or_else_secs-IsSafe (some v) old ok safe = in_range→IsSafe v ok

module _ (env : Env) (customer : ℕ) where
  -- The zones of the database have safe intervals.
  abbrev Safe : Db → Type 0
  Safe d = AreSafe d.zones

  create_zone-Safe :
      (new_id : ℕ) (req : Option CreateZoneRequest)
      → Keeps Safe (create_zone env customer new_id req)
  unfolding create_zone
  create_zone-Safe new_id none = pure-Keeps (status 400)
  create_zone-Safe new_id (some req) =
      let z = new_zone env customer new_id req in
      if_known-Keeps
        (is_empty req.zone_id || is_empty req.name || not (in_range req.pull_interval_secs)) _ _
        (λ bad. pure-Keeps (status 400))
        (λ good.
          if-Keeps (not (is_known_plan (plan_or_default req.plan))) _ _ (pure-Keeps (status 400)) (
            on_error-Keeps _ _ _
              (db_exec-Keeps env (insert_zone env customer z) (λ d now h.
                create-AreSafe now z d.zones
                  (in_range→IsSafe req.pull_interval_secs
                    (last_false (is_empty req.zone_id) (is_empty req.name) _ good))
                  h))
              (λ e. pure-Keeps (status 500))
              (λ _.
                on_error-Keeps _ _ _ time_now-Keeps (λ e. pure-Keeps (status 500))
                  (λ now. pure-Keeps (new_zone_row (record z { created_at = now }))))))

  update_own-Safe :
      (id : ℕ) (req : UpdateZoneRequest) (z : Zone)
      → IsSafe z.pull_interval_secs
      → Keeps Safe (update_own env customer id req z)
  unfolding update_own
  update_own-Safe id req z safe = if-Keeps (not (plan_ok req.plan)) _ _ (pure-Keeps (status 400)) (
      if_known-Keeps (not (interval_ok req.pull_interval_secs)) _ _ (λ bad. pure-Keeps (status 400))
        (λ good.
          on_error-Keeps _ _ _
            (db_exec-Keeps env (change_zone env customer id req z) (λ d now h.
              update-AreSafe id customer _ _ _ _ d.zones
                (or_else_secs-IsSafe req.pull_interval_secs z.pull_interval_secs (unnegated _ good)
                  safe)
                h))
            (λ e. pure-Keeps (status 500))
            (λ _.
              on_error-Keeps _ _ _ (db_query_row-Keeps env (λ d _. Zones.get_by_id id d.zones))
                (λ e. pure-Keeps (status 500))
                (λ u.
                  on_error-Keeps _ _ _ time_now-Keeps (λ e. pure-Keeps (status 500))
                    (λ now. pure-Keeps (one_zone (u, zone_health now u)))))))

  delete_own-Safe : (id : ℕ) (z : Zone) → Keeps Safe (delete_own env customer id z)
  unfolding delete_own
  delete_own-Safe id z =
      on_error-Keeps _ _ _
        (db_exec-Keeps env (remove_zone env customer id)
          (λ d now h. delete-AreSafe now id d.zones h))
        (λ e. pure-Keeps (status 500)) (λ _. pure-Keeps (status 204))

  pull_own-Safe : (z : Zone) → Keeps Safe (pull_own env customer z)
  unfolding pull_own
  pull_own-Safe z =
      on_error-Keeps _ _ _ time_now-Keeps (λ e. pure-Keeps (status 500))
        (λ now.
          on_error-Keeps _ _ _
            (enqueue-Keeps env
              (new_log_pull_task (record (window z now) { customer_id = customer })))
            (λ e. pure-Keeps (status 500)) (λ _. pure-Keeps (status 202)))

  with_own_zone-Safe :
      (id : ℕ) (next : Zone → Exec Reply)
      → ((z : Zone) → IsSafe z.pull_interval_secs → Keeps Safe (next z))
      → Keeps Safe (with_own_zone env customer id next)
  unfolding Zones.get_by_id
  with_own_zone-Safe id next k = record {
    at = λ w h. elim (with_own_zone_cases customer env id next w) [
      | inl missing ↦ rw missing h
      | inr (inl other) ↦ rw other h
      | inr (inr (z, found, mine, e)) ↦
          rw e ((k z (find_first-All _ _ w.db.zones z h found).0).at (counted w) h)
    ];
  }

  -- When the pull interval of every zone is from 300 to 518400 seconds, it is so after a request to
  -- create, change, delete or pull a zone, whatever it asks for and whichever calls fail.
  pub requests-AreSafe :
      (new_id id : ℕ) (made : Option CreateZoneRequest) (req : UpdateZoneRequest) (w : World)
      → AreSafe w.db.zones
      → AreSafe (create_zone env customer new_id made w).1.db.zones
        × AreSafe (update_zone env customer id (some req) w).1.db.zones
        × AreSafe (delete_zone env customer id w).1.db.zones
        × AreSafe (trigger_pull env customer id w).1.db.zones
  unfolding update_zone delete_zone trigger_pull
  requests-AreSafe new_id id made req w h = (
    (create_zone-Safe new_id made).at w h,
    (with_own_zone-Safe id (update_own env customer id req) (update_own-Safe id req)).at w h,
    (with_own_zone-Safe id (delete_own env customer id) (λ z _. delete_own-Safe id z)).at w h,
    (with_own_zone-Safe id (pull_own env customer) (λ z _. pull_own-Safe z)).at w h,
  )
