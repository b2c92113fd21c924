-- ===== src/Db/Audit.antt =====
-- AuditEventRepository of internal/db/repositories.go.
use rainlogs.Prelude.{ℕ, Bool, false, none, some, List, [], ◌∷◌, ◌++◌, ◌==◌, take, drop, select}
use rainlogs.Db.Order.{newest_first}
use rainlogs.Models.{AuditEvent}

abbrev pub Table : Type 0
Table = List AuditEvent

-- The empty texts that are stored as NULL come back as empty texts.
unfoldable pub create : ℕ → AuditEvent → Table → Table
create now e t = t ++ record e { created_at = now } ∷ []

abbrev pub belongs_to : ℕ → AuditEvent → Bool
belongs_to customer e = elim e.customer_id [ none ↦ false | some c ↦ c == customer ]

unfoldable pub list_by_customer : ℕ → ℕ → ℕ → Table → List AuditEvent
unfolding newest_first
list_by_customer customer limit offset t =
    take limit (drop offset (newest_first (λ r. r.created_at) (select (belongs_to customer) t)))
