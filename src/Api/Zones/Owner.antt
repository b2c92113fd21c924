-- ===== src/Api/Zones/Owner.antt =====
-- What three handlers do before their own step: they read the zone and compare its owner.
use rainlogs.Prelude.{
  ◌⊎◌, if◌then◌else◌, ℕ, ◌≡◌, ap, subst, sym, ◌∙◌, inl, inr, Bool, true, not, ◌==◌, ==_iff, Option,
  some, [], ◌∷◌, find_first, find_first_hit, find_first_miss, Bool-cases, Option-cases, All,
}
use rainlogs.Models.{Zone}
use rainlogs.GoError.{GoError}
use rainlogs.Db.Zones
use rainlogs.Exec.{World, Env, Db, Exec, pure, ok}
use rainlogs.Exec.Steps.{on_ok, on_err, row_found, row_missing, row_fails, counted, if_yes, if_no}
use rainlogs.Api.Zones.{Reply, status, with_own_zone}

pub find_first-All :
    (P : Zone → Type 0) (p : Zone → Bool) (t : Zones.Table) (z : Zone)
    → All P t
    → find_first p t ≡ some z
    → P z × (p z ≡ true)
find_first-All P p [] z h e = cc
find_first-All P p (x ∷ t) z h e = elim (Bool-cases (p x)) [
  | inl hit ↦
      let same : x ≡ z = cc (e, find_first_hit p x t hit) in
      (subst P same h.0, ap p (sym same) ∙ hit)
  | inr miss ↦ find_first-All P p t z h.1 (sym (find_first_miss p x t miss) ∙ e)
]

module _ (customer : ℕ) where
  -- What is asked of a zone reaches the handler's own step only when the customer owns the zone.
  pub with_own_zone_cases :
      (env : Env) (id : ℕ) (next : Zone → Exec Reply) (w : World)
      → (with_own_zone env customer id next w ≡ (ok (status 404), counted w))
        ⊎ (with_own_zone env customer id next w ≡ (ok (status 403), counted w))
        ⊎ (z : Zone) × (Zones.get_by_id id w.db.zones ≡ some z)
          × (z.customer_id ≡ customer)
          × (with_own_zone env customer id next w ≡ next z (counted w))
  unfolding with_own_zone pure
  with_own_zone_cases env id next w =
      let q : Db → ℕ → Option Zone = λ d _. Zones.get_by_id id d.zones in
      let refuse : GoError → Exec Reply = λ e. pure (status 404) in
      let k : Zone → Exec Reply =
        λ z. if not (z.customer_id == customer) then pure (status 403) else next z in
      elim (Bool-cases (env.db_fails w.db_calls)) [
        | inl fails ↦ inl (on_err _ refuse k w (row_fails env q w fails))
        | inr runs ↦ elim (Option-cases (Zones.get_by_id id w.db.zones)) [
          | inl missing ↦ inl (on_err _ refuse k w (row_missing env q w runs missing))
          | inr (z, found) ↦
              let enter = on_ok _ refuse k w (row_found env q w runs found) in
              elim (Bool-cases (z.customer_id == customer)) [
                | inl mine ↦ inr (
                    inr (
                      z,
                      found,
                      (==_iff _ _).0 mine,
                      enter ∙ if_no _ _ _ (counted w) (ap not mine),
                    ))
                | inr other ↦ inr (inl (enter ∙ if_yes _ _ _ (counted w) (ap not other)))
              ]
        ]
      ]
