-- ===== src/Db/LogJobs.antt =====
-- LogJobRepository of internal/db/repositories.go.
pub mod Frame
pub mod Newest
pub mod Rows
use rainlogs.Prelude.{
  ℕ, ◌+◌, ◌-◌, ◌*◌, Bool, true, false, not, ◌&&◌, ◌||◌, Option, none, some, List, [], ◌∷◌, ◌++◌,
  ◌==◌, ltb, leb, if◌then◌else◌, take, drop, find_first, select, update_where, sum_of, codes,
}
use rainlogs.Db.Order.{newest_first}
use rainlogs.Models.{LogJob, JobStatus, is_done}
use rainlogs.Calendar.{day, month_start}

abbrev pub Table : Type 0
Table = List LogJob

abbrev pub has_id : ℕ → LogJob → Bool
has_id id j = j.id == id

-- The row of an INSERT: the columns that the statement does not name take their defaults.
abbrev pub inserted : ℕ → LogJob → LogJob
inserted now j = record {
  id = j.id;
  zone_id = j.zone_id;
  customer_id = j.customer_id;
  period_start = j.period_start;
  period_end = j.period_end;
  status = j.status;
  s3_key = [];
  s3_provider = [];
  sha256 = [];
  chain_hash = [];
  byte_count = 0;
  log_count = 0;
  attempts = 0;
  err_msg = [];
  verified_at = none;
  created_at = now;
  updated_at = now;
}

unfoldable pub create : ℕ → LogJob → Table → Table
create now j t = t ++ inserted now j ∷ []

-- The SET list of Update, from the values in `j` to the row `r`.
abbrev pub assign : ℕ → LogJob → LogJob → LogJob
assign now j r = record r {
  status = j.status;
  s3_key = j.s3_key;
  s3_provider = j.s3_provider;
  sha256 = j.sha256;
  chain_hash = j.chain_hash;
  byte_count = j.byte_count;
  log_count = j.log_count;
  err_msg = j.err_msg;
  attempts = j.attempts;
  verified_at = j.verified_at;
  updated_at = now;
}

unfoldable pub update : ℕ → LogJob → Table → Table
update now j = update_where (has_id j.id) (assign now j)

unfoldable pub get_by_id : ℕ → Table → Option LogJob
get_by_id id = find_first (has_id id)

unfoldable pub list_by_customer : ℕ → ℕ → ℕ → Table → List LogJob
unfolding newest_first
list_by_customer customer limit offset t =
    take limit
      (drop offset (newest_first (λ r. r.created_at) (select (λ j. j.customer_id == customer) t)))

unfoldable pub list_by_zone : ℕ → ℕ → ℕ → ℕ → Table → List LogJob
unfolding newest_first
list_by_zone customer zone limit offset t = take limit (
    drop offset (
      newest_first (λ r. r.created_at)
        (select (λ j. (j.customer_id == customer) && (j.zone_id == zone)) t)))

-- period_end < now() - days; where now() lies before that many days no row qualifies.
unfoldable pub list_expired : ℕ → ℕ → ℕ → Table → List LogJob
list_expired now customer retention_days = select λ j.
    (j.customer_id == customer) && is_done j.status && ltb (j.period_end + retention_days * day) now

unfoldable pub mark_expired : ℕ → ℕ → Table → Table
mark_expired now id =
    update_where (has_id id) (λ r. record r { status = JobStatus.expired; updated_at = now })

unfoldable pub get_current_usage : ℕ → ℕ → Table → ℕ
get_current_usage now customer t =
    sum_of (λ j. j.byte_count)
      (select
        (λ j. (j.customer_id == customer) && is_done j.status && leb (month_start now) j.created_at)
        t)

unfoldable pub mark_verified : ℕ → ℕ → Table → Table
mark_verified now id =
    update_where (has_id id) (λ r. record r { verified_at = some now; updated_at = now })

unfoldable pub list_for_export : ℕ → ℕ → ℕ → Table → List LogJob
list_for_export customer start end_ = select λ j.
    (j.customer_id == customer)
    && is_done j.status
    && leb start j.period_start
    && leb j.period_end end_

-- Whether `a` stands before `b` in ORDER BY created_at DESC, id DESC.
unfoldable pub later_than : LogJob → LogJob → Bool
later_than a b = ltb b.created_at a.created_at || ((a.created_at == b.created_at) && ltb b.id a.id)

unfoldable pub later_of : LogJob → Option LogJob → LogJob
later_of j none = j
later_of j (some k) = if later_than k j then k else j

unfoldable pub latest : List LogJob → Option LogJob
latest [] = none
latest (j ∷ js) = some (later_of j (latest js))

-- GetLastJob: the newest job of the zone that is done.
unfoldable pub get_last_job : ℕ → Table → Option LogJob
unfolding latest later_of later_than
get_last_job zone t = latest (select (λ j. (j.zone_id == zone) && is_done j.status) t)
