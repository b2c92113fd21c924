-- ===== src/Worker/Export/Endings.antt =====
-- The four ways in which an export ends.
use rainlogs.Prelude.{
  ℕ, ◌≡◌, ◌⊎◌, refl, sym, subst, ◌∙◌, inl, inr, true, false, Option, none, some, List, [], ◌∷◌,
  ◌++◌, length, sum_of, Bytes, codes, ◌==◌, ◌&&◌, leb, select, update_where, Bool-cases,
  Option-cases,
}
use rainlogs.Models.{LogJob, LogExport, ExportStatus, JobStatus, ExportS3Config}
use rainlogs.GoError.{GoError, error_text}
use rainlogs.Kms
use rainlogs.Db.Exports
use rainlogs.Db.LogJobs
use rainlogs.Exec.{
  World, Put, Env, Db, Outcome, ok, err, raise, ignoring, on_error, send_alert, export_completed,
  export_failed,
}
use rainlogs.Exec.Steps.{
  on_ok, on_err, context_ok, context_err, exec_fails, exec_runs, query_fails, query_runs, row_fails,
  row_found, row_missing, counted, written,
}
use rainlogs.Worker.Pull.{lift}
use rainlogs.Worker.Export.{
  Inputs, failed_export, save, update_export, fail_job, complete, copy, parse_config, read_config,
  process_task,
}
use rainlogs.Worker.Export.Delivery.{delivered, byte_sum, export_logs_start}

-- The database in which those columns of the rows of the export's identifier are set at the time `t`,
-- and nothing else is changed.
abbrev pub recorded : LogExport → ExportStatus → (files bytes : ℕ) → Option Bytes → ℕ → Db → Db
recorded found status files bytes msg t d = record d {
  log_exports =
      update_where (λ r. r.id == found.id)
        (λ r. record r {
          status = status;
          log_count = files;
          byte_count = bytes;
          error_msg = msg;
          updated_at = t;
        })
        d.log_exports;
}

-- The customer's jobs that are done and whose periods lie in the range.
abbrev pub wanted : LogExport → List LogJob → List LogJob
wanted found = select λ j.
    (j.customer_id == found.customer_id)
    && (elim j.status [ JobStatus.done ↦ true | _ ↦ false ])
    && leb found.filter_start j.period_start
    && leb j.period_end found.filter_end

abbrev processing : LogExport → LogExport
processing found = record found { status = ExportStatus.processing }

abbrev completed : LogExport → List Put → LogExport
completed found ps = record found {
  status = ExportStatus.completed;
  log_count = length ps;
  byte_count = sum_of (λ p. length p.body) ps;
}

module _ (env : Env) (inputs : Inputs) (id : ℕ) (w : World) where
  -- The files of an export, from the database and the providers at its start.
  abbrev pub files : LogExport → ExportS3Config → List Put
  files found config = delivered env inputs config w.backends (wanted found w.db.log_jobs)

  abbrev pub marked : LogExport → Db
  marked found =
      recorded found ExportStatus.processing found.log_count found.byte_count found.error_msg w.now
        w.db

  -- A call of the database fails.
  abbrev pub DbFails : Type 0
  DbFails = (n : ℕ) × (env.db_fails n ≡ true)

  -- Why an export is marked as failed: its configuration cannot be decrypted or parsed, or the jobs cannot
  -- be read.
  abbrev pub Reason : LogExport → Type 0
  Reason found =
      ((e : Kms.KmsError) × (inputs.decrypt found.s3_config_enc ≡ Kms.err e))
      ⊎ ((json : Bytes) × (inputs.decrypt found.s3_config_enc ≡ Kms.ok json)
          × (inputs.unmarshal json ≡ none))
      ⊎ DbFails

  pub data ExportEnding : Outcome (Unit {0}) → World → Type 0 where
    -- The row is not read, or is not marked as being processed.
    untouched :
        {w' : World} (x : GoError)
        → (Exports.get_by_id id w.db.log_exports ≡ none) ⊎ DbFails
        → w'.db ≡ w.db
        → w'.exported ≡ w.exported
        → ExportEnding (err x) w'
    -- The configuration or the jobs cannot be read. The row may still be marked as being processed.
    failed :
        {w' : World} (found : LogExport) (x : GoError)
        → Exports.get_by_id id w.db.log_exports ≡ some found
        → Reason found
        → (w'.db
            ≡ recorded found ExportStatus.failed found.log_count found.byte_count
                (some (error_text x))
                w.now
                (marked found))
          ⊎ (w'.db ≡ marked found)
        → w'.exported ≡ w.exported
        → w'.alerts ≡ w.alerts ++ export_failed found.customer_id x ∷ []
        → ExportEnding (err x) w'
    -- The files are delivered, but the row is not updated.
    uncounted :
        {w' : World} (found : LogExport) (json : Bytes) (config : ExportS3Config) (x : GoError)
        → DbFails
        → Exports.get_by_id id w.db.log_exports ≡ some found
        → inputs.decrypt found.s3_config_enc ≡ Kms.ok json
        → inputs.unmarshal json ≡ some config
        → w'.db ≡ marked found
        → w'.exported ≡ w.exported ++ files found config
        → w'.alerts ≡ w.alerts
        → ExportEnding (err x) w'
    done :
        {w' : World} (found : LogExport) (json : Bytes) (config : ExportS3Config)
        → Exports.get_by_id id w.db.log_exports ≡ some found
        → inputs.decrypt found.s3_config_enc ≡ Kms.ok json
        → inputs.unmarshal json ≡ some config
        → w'.db
          ≡ recorded found ExportStatus.completed
              (length (files found config))
              (sum_of (λ p. length p.body) (files found config))
              found.error_msg
              w.now
              (marked found)
        → w'.exported ≡ w.exported ++ files found config
        → w'.alerts
          ≡ w.alerts ++ export_completed found.customer_id (length (files found config)) ∷ []
        → ExportEnding (ok tt) w'

  abbrev pub Ends : Outcome (Unit {0}) × World → Type 0
  Ends s = ExportEnding s.0 s.1

  module _ (found : LogExport) (row : Exports.get_by_id id w.db.log_exports ≡ some found) where
    -- The world when the row is marked.
    abbrev begun : World
    begun = written (save (processing found)) (counted w)

    abbrev same_but_calls : ℕ → World
    same_but_calls n = record begun { db_calls = n }

    fail_job-Ends :
        (x : GoError) (n : ℕ)
        → Reason found
        → Ends (fail_job env (processing found) x (same_but_calls n))
    unfolding fail_job update_export ignoring send_alert raise Exports.update
    fail_job-Ends x n why = elim (Bool-cases (env.db_fails n)) [
      | inl fails ↦
          rw (exec_fails env (save (failed_export (processing found) x)) (same_but_calls n) fails)
            (failed found x row why (inr refl) refl refl)
      | inr runs ↦
          rw (exec_runs env (save (failed_export (processing found) x)) (same_but_calls n) runs)
            (failed found x row why (inl refl) refl refl)
    ]

    module _ (json : Bytes) (config : ExportS3Config)
        (opened : inputs.decrypt found.s3_config_enc ≡ Kms.ok json)
        (parsed : inputs.unmarshal json ≡ some config) where
      abbrev delivery : World
      delivery = record (counted begun) { exported = w.exported ++ files found config }

      complete-Ends : Ends (
          complete env inputs
            (processing found)
            (length (files found config), byte_sum env inputs config (files found config))
            delivery)
      unfolding complete update_export send_alert raise Exports.update
      complete-Ends = elim (Bool-cases (env.db_fails delivery.db_calls)) [
        | inl fails ↦
            subst Ends
              (sym (on_err _ _ _ delivery (context_err _ _ _ (exec_fails env _ delivery fails))))
              (uncounted found json config _ (_, fails) row opened parsed refl refl refl)
        | inr runs ↦
            subst Ends
              (sym (on_ok _ _ _ delivery (context_ok _ _ _ (exec_runs env _ delivery runs))))
              (done found json config row opened parsed refl refl refl)
      ]

      copy-Ends : Ends (copy env inputs (processing found) config begun)
      unfolding copy LogJobs.list_for_export Exports.update
      copy-Ends = elim (Bool-cases (env.db_fails begun.db_calls)) [
        | inl fails ↦
            subst Ends (sym (on_err _ _ _ begun (query_fails env _ begun fails)))
              (fail_job-Ends _ _ (inr (inr (_, fails))))
        | inr runs ↦
            subst Ends
              (sym (
                on_ok _ _ _ begun (query_runs env _ begun runs)
                ∙ on_ok _ _ _ (counted begun)
                    (export_logs_start env inputs config _ (counted begun))))
              complete-Ends
      ]

    parse_config-Ends :
        (json : Bytes) (o : Option ExportS3Config)
        → inputs.decrypt found.s3_config_enc ≡ Kms.ok json
        → inputs.unmarshal json ≡ o
        → Ends (parse_config env inputs (processing found) o begun)
    unfolding parse_config Exports.update
    parse_config-Ends json none opened parsed = fail_job-Ends _ _ (inr (inl (json, opened, parsed)))
    parse_config-Ends json (some config) opened parsed = copy-Ends json config opened parsed

    read_config-Ends :
        (r : Kms.Result Bytes)
        → inputs.decrypt found.s3_config_enc ≡ r
        → Ends (read_config env inputs (processing found) begun)
    unfolding read_config lift on_error Exports.update
    read_config-Ends (Kms.ok json) opened =
        rw opened (parse_config-Ends json (inputs.unmarshal json) opened refl)
    read_config-Ends (Kms.err e) opened = rw opened (fail_job-Ends _ _ (inl (e, opened)))

    process_task-Ends : env.db_fails w.db_calls ≡ false → Ends (process_task env inputs id w)
    unfolding process_task update_export raise Exports.update
    process_task-Ends reads =
        let read =
          on_ok _ _ _ w (context_ok (codes "get export job") _ w (row_found env _ w reads row)) in
        elim (Bool-cases (env.db_fails (counted w).db_calls)) [
          | inl fails ↦
              subst Ends
                (sym (
                  read
                  ∙ on_err _ _ _ (counted w)
                      (context_err _ _ _ (exec_fails env _ (counted w) fails))))
                (untouched _ (inr (_, fails)) refl refl)
          | inr runs ↦
              subst Ends
                (sym (
                  read
                  ∙ on_ok _ _ _ (counted w) (context_ok _ _ _ (exec_runs env _ (counted w) runs))))
                (read_config-Ends _ refl)
        ]

-- An export ends in one of four ways, whatever fails. It changes nothing, only if its row is missing or the
-- database fails. Or it marks the row as being processed and then as failed with the text of the error, or
-- leaves it marked, only if the configuration cannot be decrypted or parsed or the database fails. Or it
-- delivers each file of the customer's finished jobs of the range that can be read and that the bucket
-- accepts, once and in order; then it marks the row as completed with their number and bytes, or leaves it
-- marked as being processed, only if the database fails. But for updated_at, no other column and no other
-- row or table is changed.
pub process_task-ExportEnding :
    (env : Env) (inputs : Inputs) (id : ℕ) (w : World)
    → ExportEnding env inputs id w (process_task env inputs id w).0 (process_task env inputs id w).1
unfolding process_task raise
process_task-ExportEnding env inputs id w = elim (Bool-cases (env.db_fails w.db_calls)) [
  | inl fails ↦
      subst (Ends env inputs id w)
        (sym (on_err _ _ _ w (context_err _ _ w (row_fails env _ w fails))))
        (untouched _ (inr (_, fails)) refl refl)
  | inr runs ↦ elim (Option-cases (Exports.get_by_id id w.db.log_exports)) [
    | inl missing ↦
        subst (Ends env inputs id w)
          (sym (on_err _ _ _ w (context_err _ _ w (row_missing env _ w runs missing))))
          (untouched _ (inl missing) refl refl)
    | inr (found, row) ↦ process_task-Ends env inputs id w found row runs
  ]
]
