-- ===== src/Db/ApiKeys.antt =====
-- APIKeyRepository of internal/db/repositories.go.
use rainlogs.Prelude.{
  ℕ, Bool, true, false, ◌&&◌, Option, none, some, List, [], ◌∷◌, ◌++◌, ◌==◌, find_first, select,
  update_where, Bytes, bytes_eq,
}
use rainlogs.Db.Order.{newest_first}
use rainlogs.Models.{ApiKey, UserRole}

abbrev pub Table : Type 0
Table = List ApiKey

abbrev pub is_unrevoked : ApiKey → Bool
is_unrevoked k = elim k.revoked_at [ none ↦ true | some _ ↦ false ]

abbrev pub default_role : UserRole → UserRole
default_role UserRole.unset = UserRole.admin
default_role r = r

unfoldable pub create : ℕ → ApiKey → Table → Table
create now k t =
    t
    ++ record k {
      role = default_role k.role;
      created_at = now;
      last_used_at = none;
      revoked_at = none;
    }
      ∷ []

unfoldable pub get_by_prefix : Bytes → Table → List ApiKey
get_by_prefix prefix = select (λ k. bytes_eq k.prefix prefix && is_unrevoked k)

unfoldable pub update_last_used : ℕ → ℕ → Table → Table
update_last_used now id = update_where (λ k. k.id == id) (λ k. record k { last_used_at = some now })

unfoldable pub revoke : ℕ → ℕ → Table → Table
revoke now id = update_where (λ k. k.id == id) (λ k. record k { revoked_at = some now })

unfoldable pub revoke_by_customer : ℕ → ℕ → Table → Table
revoke_by_customer now customer =
    update_where (λ k. (k.customer_id == customer) && is_unrevoked k)
      (λ k. record k { revoked_at = some now })

unfoldable pub get_by_customer_and_id : ℕ → ℕ → Table → Option ApiKey
get_by_customer_and_id customer id = find_first (λ k. (k.customer_id == customer) && (k.id == id))

unfoldable pub list_by_customer : ℕ → Table → List ApiKey
unfolding newest_first
list_by_customer customer t =
    newest_first (λ r. r.created_at) (select (λ k. k.customer_id == customer) t)
