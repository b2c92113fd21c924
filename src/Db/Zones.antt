-- ===== src/Db/Zones.antt =====
-- ZoneRepository of internal/db/repositories.go.
use rainlogs.Prelude.{
  ℕ, ◌+◌, ◌*◌, ◌/◌, Bool, true, false, ◌&&◌, Option, none, some, List, [], ◌∷◌, ◌++◌, ◌==◌, ltb,
  find_first, select, update_where, Bytes,
}
use rainlogs.Models.{Zone, PlanType}
use rainlogs.Calendar.{second}

abbrev pub Table : Type 0
Table = List Zone

abbrev pub is_live : Zone → Bool
is_live z = elim z.deleted_at [ none ↦ true | some _ ↦ false ]

abbrev default_plan : PlanType → PlanType
default_plan PlanType.unset = PlanType.enterprise
default_plan p = p

unfoldable pub create : ℕ → Zone → Table → Table
create now z t =
    t ++ record z { plan = default_plan z.plan; created_at = now; deleted_at = none } ∷ []

unfoldable pub get_by_id : ℕ → Table → Option Zone
get_by_id id = find_first (λ z. (z.id == id) && is_live z)

unfoldable pub list_by_customer : ℕ → Table → List Zone
list_by_customer customer = select (λ z. (z.customer_id == customer) && is_live z)

-- last_pulled_at IS NULL OR last_pulled_at < now() - pull_interval_secs
abbrev pub is_due : ℕ → Zone → Bool
is_due now z = elim z.last_pulled_at [
  | none ↦ true
  | some t ↦ ltb (t + z.pull_interval_secs * second) now
]

unfoldable pub list_due : ℕ → Table → List Zone
list_due now = select (λ z. z.active && is_live z && is_due now z)

-- The column is a TIMESTAMPTZ, which keeps microseconds.
unfoldable pub update_last_pulled : ℕ → ℕ → Table → Table
update_last_pulled id t =
    update_where (λ z. z.id == id) (λ z. record z { last_pulled_at = some (t / 1000 * 1000) })

unfoldable pub delete : ℕ → ℕ → Table → Table
delete now id =
    update_where (λ z. (z.id == id) && is_live z) (λ z. record z { deleted_at = some now })

unfoldable pub update : ℕ → ℕ → Bytes → PlanType → ℕ → Bool → Table → Table
update id customer name plan interval_secs active =
    update_where (λ z. (z.id == id) && (z.customer_id == customer) && is_live z)
      (λ z. record z {
        name = name;
        plan = plan;
        pull_interval_secs = interval_secs;
        active = active;
      })

unfoldable pub soft_delete_by_customer : ℕ → ℕ → Table → Table
soft_delete_by_customer now customer =
    update_where (λ z. (z.customer_id == customer) && is_live z)
      (λ z. record z { deleted_at = some now })

unfoldable pub list_active : Table → List Zone
list_active = select (λ z. z.active && is_live z)
