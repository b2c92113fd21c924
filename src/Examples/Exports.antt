-- ===== src/Examples/Exports.antt =====
-- An export of one hour of logs to the bucket of customer 1.
use rainlogs.Prelude.{◌+◌, ◌≡◌, refl, true, none, some, [], ◌∷◌, codes}
use rainlogs.Models.{LogJob, LogExport, JobStatus, ExportStatus, ExportS3Config}
use rainlogs.Calendar.{hour, format_day, decimal}
use rainlogs.Kms
use rainlogs.Paths.{join}
use rainlogs.Db.Exports
use rainlogs.Db.LogJobs
use rainlogs.Storage
use rainlogs.Worker.Pull.{lift}
use rainlogs.Exec.{
  World, export_completed, on_error, pure, in_context, db_query, db_query_row, db_exec, send_alert,
  get_logs,
}
use rainlogs.Examples.Setup.{env, db, world, provider, noon, logs}
use rainlogs.Worker.Export.{
  Inputs, dest_key, put_object, export_logs, complete, copy, parse_config, read_config,
  update_export, process_task,
}
use rainlogs.Worker.Export.Endings.{ExportEnding, process_task-ExportEnding}
use rainlogs.Worker.Export.Isolation.{Exported, process_task-Exported}
use rainlogs.Worker.Export.Keys.{dest_key-injective}

abbrev job : LogJob
job = record {
  id = 5;
  zone_id = 2;
  customer_id = 1;
  period_start = noon;
  period_end = noon + hour;
  status = JobStatus.done;
  s3_key = codes "logs/5";
  s3_provider = codes "garage";
  sha256 = codes "ab";
  chain_hash = codes "cd";
  byte_count = 3;
  log_count = 1;
  attempts = 1;
  err_msg = [];
  verified_at = none;
  created_at = noon;
  updated_at = noon;
}

abbrev asked : LogExport
asked = record {
  id = 4;
  customer_id = 1;
  s3_config_enc = codes "v1:00";
  filter_start = noon;
  filter_end = noon + hour;
  status = ExportStatus.pending;
  log_count = 0;
  byte_count = 0;
  error_msg = none;
  created_at = noon;
  updated_at = noon;
}

abbrev bucket : ExportS3Config
bucket = record {
  endpoint = codes "https://s3.acme.example";
  region = codes "eu";
  bucket = codes "acme";
  access_key_id = codes "id";
  secret_access_key = codes "secret";
  path_prefix = codes "/logs/../edge/";
}

abbrev export_inputs : Inputs
export_inputs = record {
  decrypt = λ _. Kms.ok (codes "{}");
  unmarshal = λ _. some bucket;
  accepts = λ _. true;
}

-- The job of customer 1, whose blob is stored, and one of customer 8.
abbrev before : World
before = record world {
  db = record db {
    log_jobs = job ∷ record job { id = 6; customer_id = 8 } ∷ [];
    log_exports = asked ∷ [];
  };
  backends = record provider { objects = (codes "logs/5", 31 ∷ logs) ∷ [] } ∷ [];
}

key_of_job : dest_key env bucket job ≡ codes "/edge/2026/01/01/5.log.gz"
unfolding dest_key join format_day decimal
key_of_job = refl

one_file : (process_task env export_inputs 4 before).1.alerts ≡ export_completed 1 1 ∷ []
unfolding process_task read_config parse_config copy export_logs put_object complete update_export
    on_error pure in_context db_query db_query_row db_exec send_alert get_logs lift
    Exports.get_by_id LogJobs.list_for_export Storage.get_logs Storage.get_one Storage.object
one_file = refl

process_task-ExportEnding_example :
    ExportEnding env export_inputs 4 before
      (process_task env export_inputs 4 before).0
      (process_task env export_inputs 4 before).1
process_task-ExportEnding_example = process_task-ExportEnding env export_inputs 4 before

process_task-Exported_example :
    Exported env export_inputs 4 before (process_task env export_inputs 4 before).1
process_task-Exported_example = process_task-Exported env export_inputs 4 before

dest_key-injective_example :
    env.codec.uuid_text job.id ≡ env.codec.uuid_text (record job { period_end = noon }).id
unfolding decimal dest_key
dest_key-injective_example =
    dest_key-injective env bucket job (record job { period_end = noon }) (refl, tt) (refl, tt) refl
