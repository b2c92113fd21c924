-- ===== src/Db/Customers.antt =====
-- CustomerRepository of internal/db/repositories.go.
use rainlogs.Prelude.{
  ℕ, Bool, true, false, ◌&&◌, Option, none, some, List, [], ◌∷◌, ◌++◌, ◌==◌, find_first, select,
  update_where, bytes_eq,
}
use rainlogs.Db.Order.{newest_first}
use rainlogs.Models.{Customer}

abbrev pub Table : Type 0
Table = List Customer

abbrev pub is_live : Customer → Bool
is_live c = elim c.deleted_at [ none ↦ true | some _ ↦ false ]

-- `email` is UNIQUE over all rows, deleted ones too.
unfoldable pub email_taken : Customer → Table → Bool
email_taken c t = elim (find_first (λ r. bytes_eq r.email c.email) t) [
  | none ↦ false
  | some _ ↦ true
]

unfoldable pub create : ℕ → Customer → Table → Table
create now c t = t ++ record c { created_at = now; updated_at = now; deleted_at = none } ∷ []

unfoldable pub get_by_id : ℕ → Table → Option Customer
get_by_id id = find_first (λ c. (c.id == id) && is_live c)

unfoldable pub list : Table → List Customer
unfolding newest_first
list t = newest_first (λ r. r.created_at) (select is_live t)

unfoldable pub soft_delete : ℕ → ℕ → Table → Table
soft_delete now id =
    update_where (λ c. (c.id == id) && is_live c)
      (λ c. record c { deleted_at = some now; updated_at = now })
