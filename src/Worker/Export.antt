-- ===== src/Worker/Export.antt =====
-- LogExportProcessor of internal/worker/export.go: ProcessTask and failJob, from the parsed payload.
--
-- Arguments are the key ring's Decrypt, json.Unmarshal of the configuration, and whether the customer's
-- bucket accepts an object. The local time zone, in which Format writes the day, is UTC.
pub mod Delivery
pub mod Endings
pub mod Isolation
pub mod Keys
use rainlogs.Prelude.{
  ℕ, ◌+◌, Bool, true, false, Option, none, some, List, [], ◌∷◌, ◌++◌, if◌then◌else◌, length, Bytes,
  codes,
}
use rainlogs.Calendar.{format_day}
use rainlogs.Paths.{join}
use rainlogs.Models.{LogJob, LogExport, ExportStatus, ExportS3Config}
use rainlogs.GoError.{GoError, text, wrap, error_text}
use rainlogs.Kms
use rainlogs.Db.Exports
use rainlogs.Db.LogJobs
use rainlogs.Exec.{
  World, Put, Env, Db, ok, err, Exec, pure, raise, in_context, on_error, ignoring, db_query,
  db_query_row, db_exec, get_logs, send_alert, export_completed, export_failed,
}
use rainlogs.Worker.Pull.{lift_kms, lift}

pub record Inputs : Type 0 where
  pub decrypt : Bytes → Kms.Result Bytes
  pub unmarshal : Bytes → Option ExportS3Config
  pub accepts : Put → Bool

abbrev pub failed_export : LogExport → GoError → LogExport
failed_export job e = record job { status = ExportStatus.failed; error_msg = some (error_text e) }

abbrev pub save : LogExport → Db → ℕ → Db
save job d now = record d { log_exports = Exports.update now job d.log_exports }

module _ (env : Env) where
  unfoldable pub update_export : LogExport → Exec (Unit {0})
  update_export job = db_exec env (save job)

  -- failJob
  unfoldable pub fail_job : LogExport → GoError → Exec (Unit {0})
  unfolding update_export
  fail_job job e =
      ignoring (update_export (failed_export job e))
        (ignoring (send_alert (export_failed job.customer_id e)) (raise e))

  unfoldable pub dest_key : ExportS3Config → LogJob → Bytes
  dest_key config log = join (
      config.path_prefix
      ∷ format_day log.period_start
      ∷ (env.codec.uuid_text log.id ++ codes ".log.gz")
      ∷ [])

  abbrev pub put_of : ExportS3Config → LogJob → Bytes → Put
  put_of config log body = record { config = config; key = dest_key config log; body = body }

  module _ (inputs : Inputs) where
    -- PutObject
    unfoldable pub put_object : Put → Exec (Unit {0})
    put_object p w =
        if inputs.accepts p
        then (ok tt, record w { exported = w.exported ++ p ∷ [] })
        else (err (text []), w)

    -- Step 5, with the counts of files and bytes so far.
    unfoldable pub export_logs : ExportS3Config → List LogJob → (files bytes : ℕ) → Exec (ℕ × ℕ)
    unfolding put_object
    export_logs config [] files bytes = pure (files, bytes)
    export_logs config (log ∷ logs) files bytes =
        on_error (get_logs env log.s3_key) (λ e. export_logs config logs files bytes)
          λ body.
            on_error (put_object (put_of config log body))
              (λ e. export_logs config logs files bytes)
              (λ _. export_logs config logs (files + 1) (bytes + length body))

    -- Step 6.
    unfoldable pub complete : LogExport → ℕ × ℕ → Exec (Unit {0})
    complete job (files, bytes) =
        let done = record job {
          status = ExportStatus.completed;
          log_count = files;
          byte_count = bytes;
        } in
        on_error (in_context (codes "update complete") (update_export done)) raise
          (λ _. send_alert (export_completed job.customer_id files))

    -- Step 4.
    unfoldable pub copy : LogExport → ExportS3Config → Exec (Unit {0})
    unfolding export_logs complete
    copy job config =
        on_error
          (db_query env λ d _.
            LogJobs.list_for_export job.customer_id job.filter_start job.filter_end d.log_jobs)
          (λ e. fail_job job (wrap (codes "list logs") e))
          (λ logs. on_error (export_logs config logs 0 0) raise (complete job))

    unfoldable pub parse_config : LogExport → Option ExportS3Config → Exec (Unit {0})
    unfolding copy
    parse_config job none = fail_job job (wrap (codes "unmarshal s3 config") (text []))
    parse_config job (some config) = copy job config

    -- Step 2.
    unfoldable pub read_config : LogExport → Exec (Unit {0})
    unfolding parse_config
    read_config job =
        on_error (lift (lift_kms (inputs.decrypt job.s3_config_enc)))
          (λ e. fail_job job (wrap (codes "decrypt s3 config") e))
          (λ json. parse_config job (inputs.unmarshal json))

    -- ProcessTask
    unfoldable pub process_task : ℕ → Exec (Unit {0})
    unfolding read_config
    process_task export_id =
        on_error
          (in_context (codes "get export job")
            (db_query_row env (λ d _. Exports.get_by_id export_id d.log_exports)))
          raise
          λ found.
            let job = record found { status = ExportStatus.processing } in
            on_error (in_context (codes "update status") (update_export job)) raise
              (λ _. read_config job)
