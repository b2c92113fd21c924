-- ===== src/Api/Erasure/Residue.antt =====
-- What an erasure leaves when a step of it fails.
use rainlogs.Prelude.{ℕ, ◌+◌, ◌≡◌, refl, ap, ◌∙◌, true, false, List, [], ◌∷◌, is_empty}
use rainlogs.Models.{LogJob}
use rainlogs.Db.ApiKeys
use rainlogs.Db.LogJobs
use rainlogs.Exec.{World, Env, Db, Exec, ok, pure, on_error, ignoring, db_exec}
use rainlogs.Exec.Keeps.{
  Keeps, on_error-Keeps, if-Keeps, ignoring-Keeps, pure-Keeps, db_query-Keeps, db_exec-Keeps,
  delete_object-Keeps,
}
use rainlogs.Exec.Steps.{on_ok, exec_runs, exec_fails, written, counted}
use rainlogs.Api.Erasure.{
  mark, erase_jobs, erase_zones, erase_keys, erase_customer, erase_objects, erase_rows,
  delete_customer,
}
use rainlogs.Api.Erasure.Shut.{delete_customer-erase_rows}

abbrev Has : ApiKeys.Table → Db → Type 0
Has t d = d.api_keys ≡ t

module _ (env : Env) (customer : ℕ) where
  erase_jobs-Has : (t : ApiKeys.Table) (jobs : List LogJob) → Keeps (Has t) (erase_jobs env jobs)
  unfolding erase_jobs
  erase_jobs-Has t [] = pure-Keeps tt
  erase_jobs-Has t (job ∷ jobs) =
      let rest = erase_jobs-Has t jobs in
      if-Keeps (is_empty job.s3_key) _ _ rest (
        ignoring-Keeps _ _ (delete_object-Keeps env job.s3_key)
          (ignoring-Keeps _ _ (db_exec-Keeps env (mark env job) (λ d now h. h)) rest))

  erase_objects-Has : (t : ApiKeys.Table) → Keeps (Has t) (erase_objects env customer)
  unfolding erase_objects
  erase_objects-Has t =
      on_error-Keeps _ _ _
        (db_query-Keeps env (λ d _. LogJobs.list_by_customer customer 9999 0 d.log_jobs))
        (λ e. pure-Keeps tt) (erase_jobs-Has t)

  module _ (w : World) where
    -- The database calls of the first step.
    abbrev first_calls : ℕ
    first_calls = (erase_objects env customer w).1.db_calls

    -- Where the call that revokes the keys fails and the calls before and after it do not,
    -- DeleteCustomer answers 204 and every key is as it was.
    delete_customer_residue :
        env.db_fails first_calls ≡ false
        → env.db_fails (first_calls + 1) ≡ true
        → env.db_fails (first_calls + 1 + 1) ≡ false
        → ((delete_customer env customer customer w).0 ≡ ok 204)
          × ((delete_customer env customer customer w).1.db.api_keys ≡ w.db.api_keys)
    unfolding erase_rows pure ignoring
    delete_customer_residue runs fails ends =
        let w1 = (erase_objects env customer w).1 in
        let w2 = written (erase_zones env customer) w1 in
        let end : Exec ℕ =
          on_error (db_exec env (erase_customer env customer)) (λ e. pure 500) (λ _. pure 204) in
        let e =
          delete_customer-erase_rows env customer w
          ∙ ap (λ r. end (db_exec env (erase_keys env customer) r.1).1)
              (exec_runs env (erase_zones env customer) w1 runs)
          ∙ ap (λ r. end r.1) (exec_fails env (erase_keys env customer) w2 fails)
          ∙ on_ok _ (λ e. pure 500) (λ _. pure 204) (counted w2)
              (exec_runs env (erase_customer env customer) (counted w2) ends) in
        (ap (λ r. r.0) e, ap (λ r. r.1.db.api_keys) e ∙ (erase_objects-Has w.db.api_keys).at w refl)
