-- ===== src/Api/Erasure.antt =====
-- DeleteCustomer of internal/api/handlers/handlers.go, after the customer of the request and the path's
-- identifier are known. The reply is its status.
pub mod Shut
pub mod Residue
use rainlogs.Prelude.{ℕ, Bool, not, List, [], ◌∷◌, ◌==◌, if◌then◌else◌, is_empty}
use rainlogs.Models.{LogJob}
use rainlogs.Db.LogJobs
use rainlogs.Db.Zones
use rainlogs.Db.ApiKeys
use rainlogs.Db.Customers
use rainlogs.Exec.{Env, Db, Exec, pure, on_error, ignoring, db_query, db_exec, delete_object}

module _ (env : Env) where
  abbrev pub mark : LogJob → Db → ℕ → Db
  mark job d now = record d { log_jobs = LogJobs.mark_expired now job.id d.log_jobs }

  -- The loop over the jobs. A job is marked whether or not its object could be deleted.
  unfoldable pub erase_jobs : List LogJob → Exec (Unit {0})
  erase_jobs [] = pure tt
  erase_jobs (job ∷ jobs) =
      let rest = erase_jobs jobs in
      if is_empty job.s3_key
      then rest
      else ignoring (delete_object env job.s3_key) (ignoring (db_exec env (mark job)) rest)

  abbrev pub erase_zones : ℕ → Db → ℕ → Db
  erase_zones customer d now = record d {
    zones = Zones.soft_delete_by_customer now customer d.zones;
  }

  abbrev pub erase_keys : ℕ → Db → ℕ → Db
  erase_keys customer d now = record d {
    api_keys = ApiKeys.revoke_by_customer now customer d.api_keys;
  }

  abbrev pub erase_customer : ℕ → Db → ℕ → Db
  erase_customer customer d now = record d {
    customers = Customers.soft_delete now customer d.customers;
  }

  -- The first step: the objects of the newest 9999 jobs.
  unfoldable pub erase_objects : ℕ → Exec (Unit {0})
  erase_objects customer =
      on_error (db_query env (λ d _. LogJobs.list_by_customer customer 9999 0 d.log_jobs))
        (λ e. pure tt) erase_jobs

  -- The other steps. Only the last one is reported when it fails.
  unfoldable pub erase_rows : ℕ → Exec ℕ
  erase_rows customer = ignoring (db_exec env (erase_zones customer)) (
      ignoring (db_exec env (erase_keys customer))
        (on_error (db_exec env (erase_customer customer)) (λ e. pure 500) (λ _. pure 204)))

  -- DeleteCustomer
  unfoldable pub delete_customer : ℕ → ℕ → Exec ℕ
  delete_customer customer id =
      if not (id == customer)
      then pure 403
      else ignoring (erase_objects customer) (erase_rows customer)
