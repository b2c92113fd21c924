-- ===== src/Worker/Export/Isolation.antt =====
-- Whose logs an export delivers.
use mathlib.Core.List.{Memᴰ}
use rainlogs.Prelude.{
  ℕ, ◌≤◌, ◌≡◌, refl, sym, ◌∙◌, append-nil, inl, inr, Bool, true, false, Option, none, some, List,
  [], ◌∷◌, ◌++◌, ◌==◌, ==_iff, ◌&&◌, leb, leb→le, Bytes, Bool-cases, All,
}
use rainlogs.Models.{LogJob, LogExport, JobStatus, is_done, ExportS3Config}
use rainlogs.Kms
use rainlogs.Storage
use rainlogs.Storage.{Backend}
use rainlogs.Db.Exports
use rainlogs.Db.LogJobs
use rainlogs.Db.Selected.{select-All_rows}
use rainlogs.Worker.Expire.Retention.{is_done→done}
use rainlogs.Exec.{World, Put, Env, Outcome}
use rainlogs.Worker.Export.{Inputs, process_task}
use rainlogs.Worker.Export.Delivery.{readable, accepted, with_file}
use rainlogs.Worker.Export.Endings.{
  ExportEnding, untouched, failed, uncounted, done, files, process_task-ExportEnding,
}

both : (a b : Bool) → (a && b) ≡ true → (a ≡ true) × (b ≡ true)
both true b h = (refl, h)
both false b h = cc

module _ (env : Env) (inputs : Inputs) (id : ℕ) (w : World) where
  pub record OfRange (found : LogExport) (log : LogJob) : Type 0 where
    pub member : Memᴰ log w.db.log_jobs
    pub own : log.customer_id ≡ found.customer_id
    pub finished : log.status ≡ JobStatus.done
    pub start : found.filter_start ≤ log.period_start
    pub end_ : log.period_end ≤ found.filter_end

  -- A file of the export `id`: the logs of a finished job of the table that is its customer's, within its range, for the
  -- bucket that its row names.
  pub record OfExport (p : Put) : Type 0 where
    pub found : LogExport
    pub row : Exports.get_by_id id w.db.log_exports ≡ some found
    pub log : LogJob
    pub of_range : OfRange found log
    pub json : Bytes
    pub opened : inputs.decrypt found.s3_config_enc ≡ Kms.ok json
    pub parsed : inputs.unmarshal json ≡ some p.config
    pub body : Storage.get_logs env.codec log.s3_key w.backends ≡ some p.body

  of_range :
      (found : LogExport)
      → All (OfRange found) (
          LogJobs.list_for_export found.customer_id found.filter_start found.filter_end
            w.db.log_jobs)
  unfolding LogJobs.list_for_export
  of_range found = select-All_rows _ _ w.db.log_jobs λ log there h.
      let (most, end_) = both _ (leb log.period_end found.filter_end) h in
      let (some_of, start) = both _ (leb found.filter_start log.period_start) most in
      let (own, finished) =
        both (log.customer_id == found.customer_id) (is_done log.status) some_of in
      record {
        member = there;
        own = (==_iff _ _).0 own;
        finished = is_done→done _ finished;
        start = leb→le _ _ start;
        end_ = leb→le _ _ end_;
      }

  module _ (found : LogExport) (row : Exports.get_by_id id w.db.log_exports ≡ some found)
      (json : Bytes) (config : ExportS3Config)
      (opened : inputs.decrypt found.s3_config_enc ≡ Kms.ok json)
      (parsed : inputs.unmarshal json ≡ some config) where
    with_file-OfExport :
        (log : LogJob) (o : Option Bytes) (ps : List Put)
        → OfRange found log
        → Storage.get_logs env.codec log.s3_key w.backends ≡ o
        → All OfExport ps
        → All OfExport (with_file env inputs config log o ps)
    with_file-OfExport log none ps r e h = h
    with_file-OfExport log (some raw) ps r e h = (
      record {
        found = found;
        row = row;
        log = log;
        of_range = r;
        json = json;
        opened = opened;
        parsed = parsed;
        body = e;
      },
      h,
    )

    readable-OfExport :
        (logs : List LogJob)
        → All (OfRange found) logs
        → All OfExport (readable env inputs config w.backends logs)
    readable-OfExport [] h = tt
    readable-OfExport (log ∷ logs) h =
        with_file-OfExport log _ _ h.0 refl (readable-OfExport logs h.1)

    accepted-OfExport :
        (ps : List Put) → All OfExport ps → All OfExport (accepted env inputs config ps)
    accepted-OfExport [] h = tt
    accepted-OfExport (p ∷ ps) h = elim (Bool-cases (inputs.accepts p)) [
      | inl taken ↦ rw taken (h.0, accepted-OfExport ps h.1)
      | inr refused ↦ rw refused (accepted-OfExport ps h.1)
    ]

    files-OfExport : All OfExport (files env inputs id w found config)
    unfolding LogJobs.list_for_export
    files-OfExport = accepted-OfExport _ (readable-OfExport _ (of_range found))

  -- What an export put into buckets, after what was there before.
  pub record Exported (w' : World) : Type 0 where
    pub new : List Put
    pub same : w'.exported ≡ w.exported ++ new
    pub of_export : All OfExport new

  ExportEnding-Exported :
      {r : Outcome (Unit {0})} {w' : World} → ExportEnding env inputs id w r w' → Exported w'
  ExportEnding-Exported (untouched x why _ same) = record {
    new = [];
    same = same ∙ sym (append-nil _);
    of_export = tt;
  }
  ExportEnding-Exported (failed found x row why _ same _) = record {
    new = [];
    same = same ∙ sym (append-nil _);
    of_export = tt;
  }
  ExportEnding-Exported (uncounted found json config x fails row opened parsed _ same _) = record {
    new = _;
    same = same;
    of_export = files-OfExport found row json config opened parsed;
  }
  ExportEnding-Exported (done found json config row opened parsed _ same _) = record {
    new = _;
    same = same;
    of_export = files-OfExport found row json config opened parsed;
  }

-- Whatever fails, every file that an export puts into a bucket holds the stored logs of a finished job of
-- the table, which is of the export's own customer and within the range that was asked for, and goes to the bucket that the row of the
-- export names.
pub process_task-Exported :
    (env : Env) (inputs : Inputs) (id : ℕ) (w : World)
    → Exported env inputs id w (process_task env inputs id w).1
process_task-Exported env inputs id w =
    ExportEnding-Exported env inputs id w (process_task-ExportEnding env inputs id w)
