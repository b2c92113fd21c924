-- ===== src/Api/Zones/Deletion.antt =====
-- Whose zones a deletion changes.
use rainlogs.Prelude.{
  ℕ, ◌≡◌, refl, subst, inl, inr, Bool, true, false, ◌&&◌, ◌==◌, ==_iff, some, Bool-cases, All,
}
use rainlogs.Models.{Zone}
use rainlogs.Db.Zones
use rainlogs.Exec.{World, Env, pure}
use rainlogs.Worker.Expire.Retention.{All-imp}
use rainlogs.Exec.Steps.{on_ok, on_err, exec_fails, exec_runs, counted}
use rainlogs.Api.Zones.{status, remove_zone, delete_own, delete_zone}
use rainlogs.Api.Zones.Owner.{find_first-All, with_own_zone_cases}
use rainlogs.Api.Zones.Isolation.{foreign_zones, foreign_zones-update_where}

and_first : (a b : Bool) → (a && b) ≡ true → a ≡ true
and_first true b h = refl
and_first false b h = cc

module _ (customer : ℕ) where
  foreign_zones-delete :
      (now id : ℕ) (t : Zones.Table)
      → All (λ z. z.id ≡ id → z.customer_id ≡ customer) t
      → foreign_zones customer (Zones.delete now id t) ≡ foreign_zones customer t
  unfolding Zones.delete
  foreign_zones-delete now id t own =
      foreign_zones-update_where customer (λ z. (z.id == id) && Zones.is_live z)
        (λ z. record z { deleted_at = some now }) t (λ z. refl)
        (All-imp t
          (λ z mine hit. mine ((==_iff _ _).0 (and_first (z.id == id) (Zones.is_live z) hit))) own)

  delete_own-Isolated :
      (env : Env) (id : ℕ) (z : Zone) (w : World)
      → All (λ z. z.id ≡ id → z.customer_id ≡ customer) w.db.zones
      → foreign_zones customer (delete_own env customer id z w).1.db.zones
        ≡ foreign_zones customer w.db.zones
  unfolding delete_own pure
  delete_own-Isolated env id z w own = elim (Bool-cases (env.db_fails w.db_calls)) [
    | inl fails ↦
        rw
          (on_err _ (λ e. pure (status 500)) (λ _. pure (status 204)) w
            (exec_fails env (remove_zone env customer id) w fails))
          refl
    | inr runs ↦
        rw
          (on_ok _ (λ e. pure (status 500)) (λ _. pure (status 204)) w
            (exec_runs env (remove_zone env customer id) w runs))
          (foreign_zones-delete w.now id w.db.zones own)
  ]

  -- A customer's request to delete a zone leaves the zones of every other customer as they are, in
  -- a table where the rows of that identifier have one owner.
  foreign_zones-delete_zone :
      (env : Env) (id owner : ℕ) (w : World)
      → All (λ z. z.id ≡ id → z.customer_id ≡ owner) w.db.zones
      → foreign_zones customer (delete_zone env customer id w).1.db.zones
        ≡ foreign_zones customer w.db.zones
  unfolding delete_zone Zones.get_by_id
  foreign_zones-delete_zone env id owner w one =
      elim (with_own_zone_cases customer env id (delete_own env customer id) w) [
        | inl missing ↦ rw missing refl
        | inr (inl other) ↦ rw other refl
        | inr (inr (z, found, mine, e)) ↦
            let (owned, hit) =
              find_first-All _ (λ z. (z.id == id) && Zones.is_live z) w.db.zones z one found in
            let same : owner ≡ customer =
              cc (owned ((==_iff _ _).0 (and_first (z.id == id) (Zones.is_live z) hit)), mine) in
            rw e (
              delete_own-Isolated env id z (counted w)
                (subst (λ o. All (λ z. z.id ≡ id → z.customer_id ≡ o) w.db.zones) same one))
      ]
