-- ===== src/Api/ExportRequests.antt =====
-- Create of the export handlers, internal/api/handlers/export.go; a body that Bind refuses is `none`. The
-- identifier of the export, json.Marshal of the configuration and the key ring's Encrypt are arguments.
pub mod Handover
use rainlogs.Prelude.{ℕ, Option, none, some, Bytes}
use rainlogs.Models.{LogExport, ExportStatus, ExportS3Config}
use rainlogs.Kms
use rainlogs.Queue.{new_log_export_task}
use rainlogs.Db.Exports
use rainlogs.Exec.{Env, Db, Exec, pure, on_error, db_exec, enqueue, time_now}

pub data Reply : Type 0 where
  status : ℕ → Reply
  created : LogExport → Reply

pub record CreateExportRequest : Type 0 where
  pub s3_config : ExportS3Config
  pub start : ℕ
  pub end_ : ℕ

abbrev pub export_of : (new_id customer : ℕ) → CreateExportRequest → Bytes → LogExport
export_of new_id customer req config_enc = record {
  id = new_id;
  customer_id = customer;
  s3_config_enc = config_enc;
  filter_start = req.start;
  filter_end = req.end_;
  status = ExportStatus.pending;
  log_count = 0;
  byte_count = 0;
  error_msg = none;
  created_at = 0;
  updated_at = 0;
}

abbrev pub stamped : ℕ → LogExport → LogExport
stamped now e = record e { created_at = now; updated_at = now }

module _ (env : Env) (customer : ℕ) where
  abbrev pub insert_export : LogExport → Db → ℕ → Db
  insert_export e d now = record d { log_exports = Exports.create now e d.log_exports }

  -- From the encrypted configuration on. The insert returns the times of the row.
  unfoldable pub save_export : ℕ → CreateExportRequest → Kms.Result Bytes → Exec Reply
  save_export new_id req (Kms.err e) = pure (status 500)
  save_export new_id req (Kms.ok config_enc) =
      let e = export_of new_id customer req config_enc in
      on_error time_now (λ _. pure (status 500))
        λ now.
          on_error (db_exec env (insert_export e)) (λ _. pure (status 500))
            λ _.
              on_error (enqueue env (new_log_export_task new_id)) (λ _. pure (status 500))
                (λ _. pure (created (stamped now e)))

  -- Create
  unfoldable pub create_export :
      (encrypt : Bytes → Kms.Result Bytes) (marshal : ExportS3Config → Bytes) (new_id : ℕ)
      → Option CreateExportRequest
      → Exec Reply
  unfolding save_export
  create_export encrypt marshal new_id none = pure (status 400)
  create_export encrypt marshal new_id (some req) =
      save_export new_id req (encrypt (marshal req.s3_config))
