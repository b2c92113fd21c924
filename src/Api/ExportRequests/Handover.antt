-- ===== src/Api/ExportRequests/Handover.antt =====
-- From a request for an export to the task that the worker takes.
use rainlogs.Prelude.{
  ℕ, ◌+◌, ◌≡◌, refl, ◌∙◌, false, ==_refl, Option, none, some, [], ◌∷◌, ◌++◌, find_first-append,
  Bytes, length, All,
}
use rainlogs.Hex.RoundTrip.{IsByte}
use rainlogs.Models.{LogExport, ExportS3Config}
use rainlogs.Kms
use rainlogs.Kms.{Aead, Encryptor, nonce_size, lookup}
use rainlogs.Kms.RoundTrip.{IsReady, HasNoColon, decrypt-encrypt}
use rainlogs.Queue.{Task, new_log_export_task}
use rainlogs.Db.Exports
use rainlogs.Exec.{World, Env, ok, pure, on_error, db_exec, enqueue, time_now}
use rainlogs.Exec.Steps.{on_ok, exec_runs, written}
use rainlogs.Api.ExportRequests.{
  status, created, CreateExportRequest, export_of, stamped, insert_export, save_export,
  create_export,
}

get_by_id-create :
    (now : ℕ) (e : LogExport) (t : Exports.Table)
    → Exports.get_by_id e.id t ≡ none
    → Exports.get_by_id e.id (Exports.create now e t)
      ≡ some (record e {
        log_count = 0;
        byte_count = 0;
        error_msg = none;
        created_at = now;
        updated_at = now;
      })
unfolding Exports.get_by_id Exports.create
get_by_id-create now e t fresh = find_first-append _ t _ fresh (==_refl e.id)

abbrev with_task : Task → World → World
with_task t w = record w {
  queue_calls = w.queue_calls + 1;
  queue = w.queue ++ record { task = t; task_id = none } ∷ [];
}

enqueue_runs :
    (env : Env) (t : Task) (w : World)
    → env.queue_fails w.queue_calls ≡ false
    → enqueue env t w ≡ (ok tt, with_task t w)
unfolding enqueue
enqueue_runs env t w runs = rw (runs, enqueue) refl

module _ (env : Env) (aead : Aead) (e later : Encryptor) (nonce : Bytes)
    (marshal : ExportS3Config → Bytes) (unmarshal : Bytes → Option ExportS3Config) where
  abbrev insert_world : LogExport → ℕ → World → World
  insert_world x customer w = written (insert_export env customer x) w

  -- Where the database and the queue answer, the identifier is free and the key ring is ready, a request
  -- for an export puts one task on the queue, and the row that this task names is of the customer and
  -- holds, encrypted, the configuration of the request, which the worker reads back from it. What
  -- json.Marshal makes of this configuration, json.Unmarshal reads.
  pub create_export-decrypt :
      (customer new_id : ℕ) (req : CreateExportRequest) (w : World)
      → unmarshal (marshal req.s3_config) ≡ some req.s3_config
      → IsReady e
      → HasNoColon e.active_key_id
      → lookup e.active_key_id later.keys ≡ lookup e.active_key_id e.keys
      → length nonce ≡ nonce_size
      → All IsByte nonce
      → All IsByte (marshal req.s3_config)
      → env.db_fails w.db_calls ≡ false
      → env.queue_fails w.queue_calls ≡ false
      → Exports.get_by_id new_id w.db.log_exports ≡ none
      → (x : LogExport) × (json : Bytes) × (w' : World) × (create_export env customer
            (Kms.encrypt aead e (some nonce))
            marshal
            new_id
            (some req)
            w
          ≡ (ok (created x), w'))
        × (w'.queue ≡ w.queue ++ record { task = new_log_export_task new_id; task_id = none } ∷ [])
        × (Exports.get_by_id new_id w'.db.log_exports ≡ some x)
        × (x.customer_id ≡ customer)
        × (Kms.decrypt aead later x.s3_config_enc ≡ Kms.ok json)
        × (unmarshal json ≡ some req.s3_config)
  unfolding create_export save_export on_error pure time_now
  create_export-decrypt customer new_id req w reads ready clean same size bytes key_bytes runs
        queues fresh =
      let json = marshal req.s3_config in
      let (enc, seals, opens) =
        decrypt-encrypt aead e later nonce json ready clean same size bytes key_bytes in
      let x = export_of new_id customer req enc in
      let v = insert_world x customer w in
      (
        stamped w.now x,
        json,
        with_task (new_log_export_task new_id) v,
        rw seals (
            on_ok (db_exec env (insert_export env customer x)) (λ _. pure (status 500))
              (λ _.
                on_error (enqueue env (new_log_export_task new_id)) (λ _. pure (status 500))
                  (λ _. pure (created (stamped w.now x))))
              w (exec_runs env (insert_export env customer x) w runs)
            ∙ on_ok (enqueue env (new_log_export_task new_id)) (λ _. pure (status 500))
                (λ _. pure (created (stamped w.now x))) v
                (enqueue_runs env (new_log_export_task new_id) v queues)),
        refl,
        get_by_id-create w.now x w.db.log_exports fresh,
        refl,
        opens,
        reads,
      )
