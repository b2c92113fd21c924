-- ===== src/Db/Exports.antt =====
-- LogExportRepository of internal/db/repositories.go.
use rainlogs.Prelude.{ℕ, Option, none, List, [], ◌∷◌, ◌++◌, ◌==◌, find_first, update_where}
use rainlogs.Models.{LogExport}

abbrev pub Table : Type 0
Table = List LogExport

unfoldable pub create : ℕ → LogExport → Table → Table
create now e t =
    t
    ++ record e {
      log_count = 0;
      byte_count = 0;
      error_msg = none;
      created_at = now;
      updated_at = now;
    }
      ∷ []

unfoldable pub update : ℕ → LogExport → Table → Table
update now e =
    update_where (λ r. r.id == e.id)
      (λ r. record r {
        status = e.status;
        log_count = e.log_count;
        byte_count = e.byte_count;
        error_msg = e.error_msg;
        updated_at = now;
      })

unfoldable pub get_by_id : ℕ → Table → Option LogExport
get_by_id id = find_first (λ e. e.id == id)
