-- ===== src/Api/Reads/Own.antt =====
-- What a customer can read: only what is the customer's.
use mathlib.Core.List.{Memᴰ}
use rainlogs.Prelude.{
  ℕ, ◌≡◌, refl, ◌∙◌, not, ◌==◌, ==_iff, some, Bytes, is_empty, length, All, List, [], ◌∷◌, subst,
  sym, inl, inr, Bool-cases, Option-cases,
}
use rainlogs.Models.{LogJob, Zone}
use rainlogs.Db.Customers
use rainlogs.Db
use rainlogs.Db.LogJobs
use rainlogs.Db.Selected.{find_first-Memᴰ}
use rainlogs.Storage
use rainlogs.Db.Exports
use rainlogs.Exec.{World, Env, Exec, Outcome, pure}
use rainlogs.Exec.Steps.{
  on_ok, on_err, row_fails, row_found, row_missing, get_done, get_failed, if_yes, if_no, counted,
}
use rainlogs.Exec.Gives.{
  IfOk, Gives, pure-Gives, if-Gives, any-Gives, on_error-Gives, db_query-Gives, db_query_row-Gives,
}
use rainlogs.Api.Zones
use rainlogs.Api.Zones.{with_health, list_zones}
use rainlogs.Api.KeyRequests
use rainlogs.Api.KeyRequests.{list_api_keys}
use rainlogs.Api.Reads.{
  Reply, status, one_customer, jobs, one_job, customer_data, events, one_export, limit_of,
  offset_of, get_customer, list_log_jobs, with_own_job, get_log_job, send_archive, download_logs,
  get_zone_logs, exported, export_customer_data, list_audit_log, get_export,
}
use rainlogs.Api.Reads.Rows.{
  first_test, and_left, unnegated, IsOwn, jobs-own, zone_jobs-own, zones-own, keys-own, events-own,
}

with_health-own :
    (customer now : ℕ) (zs : List Zone)
    → All (λ z. z.customer_id ≡ customer) zs
    → All (λ p. p.0.customer_id ≡ customer) (with_health now zs)
with_health-own customer now [] h = tt
with_health-own customer now (z ∷ zs) h = (h.0, with_health-own customer now zs h.1)

-- The zones, and the keys, of a list are the customer's.
abbrev pub ZonesOwn : ℕ → Zones.Reply → Type 0
ZonesOwn customer reply = elim reply [
  | Zones.status n ↦ Unit {0}
  | Zones.new_zone_row z ↦ z.customer_id ≡ customer
  | Zones.one_zone p ↦ p.0.customer_id ≡ customer
  | Zones.all_zones zs ↦ All (λ p. p.0.customer_id ≡ customer) zs
]

abbrev pub KeysOwn : ℕ → KeyRequests.Reply → Type 0
KeysOwn customer reply = elim reply [
  | KeyRequests.status n ↦ Unit {0}
  | KeyRequests.new_key k shown ↦ k.customer_id ≡ customer
  | KeyRequests.all_keys ks ↦ All (λ k. k.customer_id ≡ customer) ks
]

module _ (env : Env) (customer : ℕ) where
  list_zones-Own : Gives (ZonesOwn customer) (list_zones env customer)
  unfolding list_zones
  list_zones-Own =
      on_error-Gives (All (λ z. z.customer_id ≡ customer)) _ _ _ _
        (db_query-Gives env _ _ (λ d now. zones-own customer d.zones))
        (λ e. pure-Gives _ (Zones.status 500) tt)
        (λ zs own.
          on_error-Gives (λ now. Unit {0}) _ _ _ _ (any-Gives _ _ (λ now. tt))
            (λ e. pure-Gives _ (Zones.status 500) tt)
            (λ now _.
              pure-Gives _ (Zones.all_zones (with_health now zs))
                (with_health-own customer now zs own)))

  list_api_keys-Own : Gives (KeysOwn customer) (list_api_keys env customer)
  unfolding list_api_keys
  list_api_keys-Own =
      on_error-Gives (All (λ k. k.customer_id ≡ customer)) _ _ _ _
        (db_query-Gives env _ _ (λ d now. keys-own customer d.api_keys))
        (λ e. pure-Gives _ (KeyRequests.status 500) tt)
        (λ ks own. pure-Gives _ (KeyRequests.all_keys ks) own)

module _ (env : Env) (customer : ℕ) (w : World) where
  abbrev Own : Exec Reply → Type 0
  Own = Gives (IsOwn env.codec customer w)

  refused : (n : ℕ) → Own (pure (status n))
  refused n = pure-Gives _ (status n) tt

  get_customer-Own : (id : ℕ) → Own (get_customer env customer id)
  unfolding get_customer Customers.get_by_id
  get_customer-Own id =
      if-Gives _ (not (id == customer)) _ _ (λ other. refused 403)
        (λ same.
          on_error-Gives (λ c. c.id ≡ id) _ _ _ _
            (db_query_row-Gives env _ (λ d _. Customers.get_by_id id d.customers)
              (λ d now c found.
                (==_iff _ _).0
                  (and_left _ (Customers.is_live c) (first_test _ d.customers c found))))
            (λ e. refused 404)
            (λ c e. pure-Gives _ (one_customer c) (e ∙ (==_iff id customer).0 (unnegated _ same))))

  list_log_jobs-Own : (limit offset : Bytes) → Own (list_log_jobs env customer limit offset)
  unfolding list_log_jobs
  list_log_jobs-Own limit offset =
      on_error-Gives (All (λ j. j.customer_id ≡ customer)) _ _ _ _
        (db_query-Gives env _ _
          (λ d now. jobs-own customer (limit_of 50 500 limit) (offset_of offset) d.log_jobs))
        (λ e. refused 500) (λ js own. pure-Gives _ (jobs js) own)

  with_own_job-Own :
      (id : ℕ) (next : LogJob → Exec Reply)
      → ((j : LogJob) → j.customer_id ≡ customer → Own (next j))
      → Own (with_own_job env customer id next)
  unfolding with_own_job
  with_own_job-Own id next k =
      on_error-Gives (λ j. Unit {0}) _ _ _ _
        (db_query_row-Gives env _ (λ d _. LogJobs.get_by_id id d.log_jobs) (λ d now j found. tt))
        (λ e. refused 404)
        (λ j _.
          if-Gives _ (not (j.customer_id == customer)) _ _ (λ other. refused 403)
            (λ same. k j ((==_iff _ _).0 (unnegated _ same))))

  get_log_job-Own : (id : ℕ) → Own (get_log_job env customer id)
  unfolding get_log_job
  get_log_job-Own id =
      with_own_job-Own id (λ j. pure (one_job j)) (λ j own. pure-Gives _ (one_job j) own)

  abbrev Shown : Outcome Reply × World → Type 0
  Shown r = IfOk (IsOwn env.codec customer w) r.0

  refused_download : (n : ℕ) (w' : World) → Shown (pure (status n) w')
  unfolding pure
  refused_download n w' = tt

  -- From the row that the query found.
  send_archive-Shown :
      (j : LogJob)
      → Memᴰ j w.db.log_jobs
      → j.customer_id ≡ customer
      → Shown (send_archive env customer j (counted w))
  unfolding send_archive pure
  send_archive-Shown j there own = elim (Bool-cases (is_empty j.s3_key)) [
    | inl none_yet ↦ subst Shown (sym (if_yes _ _ _ (counted w) none_yet)) tt
    | inr stored ↦
        subst Shown (sym (if_no _ _ _ (counted w) stored))
          (elim (Option-cases (Storage.get_logs env.codec j.s3_key w.backends)) [
            | inl lost ↦
                subst Shown (sym (on_err _ _ _ (counted w) (get_failed env _ (counted w) lost))) tt
            | inr (raw, held) ↦
                subst Shown (sym (on_ok _ _ _ (counted w) (get_done env _ (counted w) held)))
                  (record {
                    job = j;
                    member = there;
                    own = own;
                    sha256 = refl;
                    chain_hash = refl;
                    body = held;
                  })
          ])
  ]

  download_logs-Shown : (id : ℕ) → Shown (download_logs env customer id w)
  unfolding download_logs with_own_job LogJobs.get_by_id
  download_logs-Shown id = elim (Bool-cases (env.db_fails w.db_calls)) [
    | inl fails ↦
        subst Shown (sym (on_err _ _ _ w (row_fails env _ w fails))) (refused_download 404 _)
    | inr runs ↦ elim (Option-cases (LogJobs.get_by_id id w.db.log_jobs)) [
      | inl missing ↦
          subst Shown (sym (on_err _ _ _ w (row_missing env _ w runs missing)))
            (refused_download 404 _)
      | inr (j, found) ↦
          subst Shown (sym (on_ok _ _ _ w (row_found env _ w runs found)))
            (elim (Bool-cases (not (j.customer_id == customer))) [
              | inl foreign ↦
                  subst Shown (sym (if_yes _ _ _ (counted w) foreign)) (refused_download 403 _)
              | inr same ↦ subst Shown (sym (if_no _ _ _ (counted w) same)) (
                  send_archive-Shown j (find_first-Memᴰ _ w.db.log_jobs j found).0
                    ((==_iff _ _).0 (unnegated _ same)))
            ])
    ]
  ]

  get_zone_logs-Own :
      (id : ℕ) (limit offset : Bytes) → Own (get_zone_logs env customer id limit offset)
  unfolding get_zone_logs
  get_zone_logs-Own id limit offset =
      on_error-Gives (λ z. Unit {0}) _ _ _ _
        (db_query_row-Gives env _ (λ d _. Db.Zones.get_by_id id d.zones) (λ d now z found. tt))
        (λ e. refused 404)
        (λ z _.
          if-Gives _ (not (z.customer_id == customer)) _ _ (λ other. refused 403)
            (λ same.
              on_error-Gives (All (λ j. j.customer_id ≡ customer)) _ _ _ _
                (db_query-Gives env _ _ (λ d now.
                  zone_jobs-own customer id (limit_of 50 500 limit) (offset_of offset) d.log_jobs))
                (λ e. refused 500) (λ js own. pure-Gives _ (jobs js) own)))

  list_audit_log-Own : (limit offset : Bytes) → Own (list_audit_log env customer limit offset)
  unfolding list_audit_log
  list_audit_log-Own limit offset =
      on_error-Gives (All (λ e. e.customer_id ≡ some customer)) _ _ _ _
        (db_query-Gives env _ _ (λ d now.
          events-own customer (limit_of 100 1000 limit) (offset_of offset) d.audit_events))
        (λ e. refused 500) (λ es own. pure-Gives _ (events es) own)

  get_export-Own : (id : ℕ) → Own (get_export env customer id)
  unfolding get_export
  get_export-Own id =
      on_error-Gives (λ e. Unit {0}) _ _ _ _
        (db_query_row-Gives env _ (λ d _. Exports.get_by_id id d.log_exports) (λ d now e found. tt))
        (λ e. refused 404)
        (λ e _.
          if-Gives _ (not (e.customer_id == customer)) _ _ (λ other. refused 403)
            (λ same. pure-Gives _ (one_export e) ((==_iff _ _).0 (unnegated _ same))))

  export_customer_data-Own : Own (export_customer_data env customer)
  unfolding export_customer_data Customers.get_by_id
  export_customer_data-Own =
      on_error-Gives (λ c. c.id ≡ customer) _ _ _ _
        (db_query_row-Gives env _ (λ d _. Customers.get_by_id customer d.customers)
          (λ d now c found.
            (==_iff _ _).0 (and_left _ (Customers.is_live c) (first_test _ d.customers c found))))
        (λ e. refused 404)
        (λ c mine.
          on_error-Gives (All (λ z. z.customer_id ≡ customer)) _ _ _ _
            (db_query-Gives env _ _ (λ d now. zones-own customer d.zones)) (λ e. refused 500)
            (λ zs zones.
              on_error-Gives (All (λ k. k.customer_id ≡ customer)) _ _ _ _
                (db_query-Gives env _ _ (λ d now. keys-own customer d.api_keys)) (λ e. refused 500)
                (λ ks keys.
                  on_error-Gives (All (λ j. j.customer_id ≡ customer)) _ _ _ _
                    (db_query-Gives env _ _ (λ d now. jobs-own customer 500 0 d.log_jobs))
                    (λ e. refused 500)
                    (λ js own.
                      on_error-Gives (λ now. Unit {0}) _ _ _ _ (any-Gives _ _ (λ now. tt))
                        (λ e. refused 500)
                        (λ now _.
                          pure-Gives _
                            (customer_data (record {
                              exported_at = now;
                              customer = exported env customer c;
                              zones = zs;
                              api_keys = ks;
                              log_jobs_total = length js;
                              log_jobs = js;
                            }))
                            (record {
                              customer_id = mine;
                              zones = zones;
                              api_keys = keys;
                              log_jobs = own;
                            }))))))

  -- Whatever a customer asks to read, whichever identifiers the request names and whichever calls fail,
  -- a reply holds only what is the customer's: its customer row, zones, keys, jobs, audit events and
  -- exports, and a download with the hashes of a row of one of its jobs and the stored logs of that row.
  pub reads-IsOwn :
      (customer_id job_id zone_id export_id : ℕ) (limit offset : Bytes)
      → IfOk (IsOwn env.codec customer w) (get_customer env customer customer_id w).0
        × IfOk (IsOwn env.codec customer w) (list_log_jobs env customer limit offset w).0
        × IfOk (IsOwn env.codec customer w) (get_log_job env customer job_id w).0
        × IfOk (IsOwn env.codec customer w) (download_logs env customer job_id w).0
        × IfOk (IsOwn env.codec customer w) (get_zone_logs env customer zone_id limit offset w).0
        × IfOk (IsOwn env.codec customer w) (list_audit_log env customer limit offset w).0
        × IfOk (IsOwn env.codec customer w) (get_export env customer export_id w).0
        × IfOk (IsOwn env.codec customer w) (export_customer_data env customer w).0
        × IfOk (ZonesOwn customer) (list_zones env customer w).0
        × IfOk (KeysOwn customer) (list_api_keys env customer w).0
  reads-IsOwn customer_id job_id zone_id export_id limit offset = (
    (get_customer-Own customer_id).at w,
    (list_log_jobs-Own limit offset).at w,
    (get_log_job-Own job_id).at w,
    download_logs-Shown job_id,
    (get_zone_logs-Own zone_id limit offset).at w,
    (list_audit_log-Own limit offset).at w,
    (get_export-Own export_id).at w,
    export_customer_data-Own.at w,
    (list_zones-Own env customer).at w,
    (list_api_keys-Own env customer).at w,
  )
