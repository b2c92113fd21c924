-- ===== src/Api/Zones/Isolation.antt =====
-- A customer's requests do not reach the zones of other customers.
use rainlogs.Prelude.{
  is_empty, ◌||◌, ℕ, ◌≡◌, refl, ap, sym, ◌∙◌, inl, inr, Bool, true, false, not, ◌&&◌, ◌==◌, ==_iff,
  Option, none, some, List, [], ◌∷◌, ◌++◌, append-nil, select, select_miss, update_where, Bytes,
  Bool-cases, All,
}
use rainlogs.Models.{Zone, PlanType}
use rainlogs.Db.Zones
use rainlogs.Exec.{World, Env, Db, Exec}
use rainlogs.Db.LogJobs.Frame.{select-append}
use rainlogs.Exec.Keeps.{
  enqueue-Keeps, time_now-Keeps, Keeps, db_exec-Keeps, on_error-Keeps, if-Keeps, pure-Keeps,
  db_query_row-Keeps,
}
use rainlogs.Queue.{new_log_pull_task}
use rainlogs.Worker.Schedule.{window}
use rainlogs.Api.Zones.{
  Reply, status, new_zone_row, one_zone, zone_health, in_range, is_known_plan, plan_or_default,
  plan_ok, interval_ok, CreateZoneRequest, UpdateZoneRequest, new_zone, insert_zone, create_zone,
  with_own_zone, change_zone, update_own, update_zone, pull_own, trigger_pull,
}

-- The zones of every other customer, deleted ones too.
abbrev pub foreign_zones : ℕ → Zones.Table → List Zone
foreign_zones customer = select (λ z. not (z.customer_id == customer))

pub foreign_zones-update_where :
    (customer : ℕ) (p : Zone → Bool) (f : Zone → Zone) (t : Zones.Table)
    → ((z : Zone) → (f z).customer_id ≡ z.customer_id)
    → All (λ z. p z ≡ true → z.customer_id ≡ customer) t
    → foreign_zones customer (update_where p f t) ≡ foreign_zones customer t
foreign_zones-update_where customer p f [] keep own = refl
foreign_zones-update_where customer p f (z ∷ t) keep own =
    let rest = foreign_zones-update_where customer p f t keep own.1 in
    let other : Zone → Bool = λ z. not (z.customer_id == customer) in
    elim (Bool-cases (p z)) [
      | inr miss ↦ rw miss (rw rest refl)
      | inl hit ↦
          let mine : (z.customer_id == customer) ≡ true = (==_iff _ _).1 (own.0 hit) in
          rw hit (
            select_miss other (f z) (update_where p f t) (rw (keep z, mine) refl)
            ∙ rest
            ∙ sym (select_miss other z t (rw mine refl)))
    ]

All-always : (P : Zone → Type 0) (t : Zones.Table) → ((z : Zone) → P z) → All P t
All-always P [] h = tt
All-always P (z ∷ t) h = (h z, All-always P t h)

and_split : (a b c : Bool) → (a && b && c) ≡ true → b ≡ true
and_split true true c h = refl
and_split true false c h = cc
and_split false b c h = cc

module _ (customer : ℕ) where
  foreign_zones-create :
      (now : ℕ) (z : Zone) (t : Zones.Table)
      → z.customer_id ≡ customer
      → foreign_zones customer (Zones.create now z t) ≡ foreign_zones customer t
  unfolding Zones.create
  foreign_zones-create now z t mine =
      let other : Zone → Bool = λ z. not (z.customer_id == customer) in
      select-append other t _
      ∙ ap (λ r. foreign_zones customer t ++ r)
          (select_miss other _ [] (rw ((==_iff z.customer_id customer).1 mine) refl))
      ∙ append-nil _

  foreign_zones-update :
      (id : ℕ) (name : Bytes) (plan : PlanType) (secs : ℕ) (active : Bool) (t : Zones.Table)
      → foreign_zones customer (Zones.update id customer name plan secs active t)
        ≡ foreign_zones customer t
  unfolding Zones.update
  foreign_zones-update id name plan secs active t =
      foreign_zones-update_where customer
        (λ z. (z.id == id) && (z.customer_id == customer) && Zones.is_live z)
        (λ z. record z { name = name; plan = plan; pull_interval_secs = secs; active = active }) t
        (λ z. refl)
        (All-always _ t (λ z hit. (==_iff _ _).0 (and_split (z.id == id) _ (Zones.is_live z) hit)))

  -- The zones of the other customers are these.
  abbrev Isolated : List Zone → Db → Type 0
  Isolated zones d = foreign_zones customer d.zones ≡ zones

  module _ (env : Env) (zones : List Zone) where
    create_zone-Isolated :
        (new_id : ℕ) (req : Option CreateZoneRequest)
        → Keeps (Isolated zones) (create_zone env customer new_id req)
    unfolding create_zone
    create_zone-Isolated new_id none = pure-Keeps (status 400)
    create_zone-Isolated new_id (some req) =
        if-Keeps
          (is_empty req.zone_id || is_empty req.name || not (in_range req.pull_interval_secs)) _ _
          (pure-Keeps (status 400))
          (if-Keeps (not (is_known_plan (plan_or_default req.plan))) _ _ (pure-Keeps (status 400)) (
            on_error-Keeps _ _ _
              (db_exec-Keeps env (insert_zone env customer (new_zone env customer new_id req))
                (λ d now h. foreign_zones-create now _ d.zones refl ∙ h))
              (λ e. pure-Keeps (status 500))
              (λ _.
                on_error-Keeps _ _ _ time_now-Keeps (λ e. pure-Keeps (status 500))
                  (λ now. pure-Keeps (
                    new_zone_row
                      (record (new_zone env customer new_id req) { created_at = now }))))))

    with_own_zone-Isolated :
        (id : ℕ) (next : Zone → Exec Reply)
        → ((z : Zone) → Keeps (Isolated zones) (next z))
        → Keeps (Isolated zones) (with_own_zone env customer id next)
    unfolding with_own_zone
    with_own_zone-Isolated id next k =
        on_error-Keeps _ _ _ (db_query_row-Keeps env (λ d _. Zones.get_by_id id d.zones))
          (λ e. pure-Keeps (status 404))
          (λ z. if-Keeps (not (z.customer_id == customer)) _ _ (pure-Keeps (status 403)) (k z))

    update_own-Isolated :
        (id : ℕ) (req : UpdateZoneRequest) (z : Zone)
        → Keeps (Isolated zones) (update_own env customer id req z)
    unfolding update_own
    update_own-Isolated id req z = if-Keeps (not (plan_ok req.plan)) _ _ (pure-Keeps (status 400)) (
        if-Keeps (not (interval_ok req.pull_interval_secs)) _ _ (pure-Keeps (status 400)) (
          on_error-Keeps _ _ _
            (db_exec-Keeps env (change_zone env customer id req z)
              (λ d now h. foreign_zones-update id _ _ _ _ d.zones ∙ h))
            (λ e. pure-Keeps (status 500))
            (λ _.
              on_error-Keeps _ _ _ (db_query_row-Keeps env (λ d _. Zones.get_by_id id d.zones))
                (λ e. pure-Keeps (status 500))
                (λ u.
                  on_error-Keeps _ _ _ time_now-Keeps (λ e. pure-Keeps (status 500))
                    (λ now. pure-Keeps (one_zone (u, zone_health now u)))))))

    update_zone-Isolated :
        (id : ℕ) (req : Option UpdateZoneRequest)
        → Keeps (Isolated zones) (update_zone env customer id req)
    unfolding update_zone
    update_zone-Isolated id none = pure-Keeps (status 400)
    update_zone-Isolated id (some req) =
        with_own_zone-Isolated id (update_own env customer id req) (update_own-Isolated id req)

    trigger_pull-Isolated : (id : ℕ) → Keeps (Isolated zones) (trigger_pull env customer id)
    unfolding trigger_pull pull_own
    trigger_pull-Isolated id = with_own_zone-Isolated id (pull_own env customer) (λ z.
        on_error-Keeps _ _ _ time_now-Keeps (λ e. pure-Keeps (status 500))
          (λ now.
            on_error-Keeps _ _ _
              (enqueue-Keeps env
                (new_log_pull_task (record (window z now) { customer_id = customer })))
              (λ e. pure-Keeps (status 500)) (λ _. pure-Keeps (status 202))))

  -- A customer's requests to create a zone, to change one and to pull one leave the zones of every
  -- other customer as they are, whatever their arguments and whichever calls fail.
  pub foreign_zones-requests :
      (env : Env) (new_id id : ℕ) (made : Option CreateZoneRequest) (req : Option UpdateZoneRequest)
      (w : World)
      → (foreign_zones customer (create_zone env customer new_id made w).1.db.zones
          ≡ foreign_zones customer w.db.zones)
        × (foreign_zones customer (update_zone env customer id req w).1.db.zones
            ≡ foreign_zones customer w.db.zones)
        × (foreign_zones customer (trigger_pull env customer id w).1.db.zones
            ≡ foreign_zones customer w.db.zones)
  foreign_zones-requests env new_id id made req w = (
    (create_zone-Isolated env _ new_id made).at w refl,
    (update_zone-Isolated env _ id req).at w refl,
    (trigger_pull-Isolated env _ id).at w refl,
  )
