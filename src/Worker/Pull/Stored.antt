-- ===== src/Worker/Pull/Stored.antt =====
-- The row of a job whose logs are stored, and how a stage of the pull ends.
use rainlogs.Prelude.{
  ℕ, ◌≡◌, refl, subst, sym, inl, inr, Option, none, some, List, [], Bytes, codes, Bool-cases,
}
use rainlogs.Models.{LogJob, JobStatus, Customer, Zone}
use rainlogs.Hex.{encode}
use rainlogs.Worm.{genesis_hash, chain_hash}
use rainlogs.Storage.{BlobMetadata, Upload, Backend}
use rainlogs.Queue.{LogPullPayload, new_log_verify_task}
use rainlogs.Exec.{World, Env, Db, Outcome, ok, ignoring, enqueue, pure}
use rainlogs.Worker.Pull.{Inputs}

-- The chain hash of the zone's newest job that is done, or the genesis hash where there is none.
abbrev pub zone_head : Option LogJob → Bytes
zone_head none = genesis_hash
zone_head (some job) = job.chain_hash

-- The row of a job that was pulled, sealed and stored: written at `created` and again at `stored`.
abbrev pub stored_row :
    Env
    → Inputs
    → LogPullPayload
    → (created stored : ℕ) (meta : BlobMetadata) (provider prev logs : Bytes) → LogJob
stored_row env inputs payload created stored meta provider prev logs = record {
  id = inputs.new_id;
  zone_id = payload.zone_id;
  customer_id = payload.customer_id;
  period_start = payload.period_start;
  period_end = payload.period_end;
  status = JobStatus.done;
  s3_key = meta.key;
  s3_provider = provider;
  sha256 = meta.sha256;
  chain_hash =
      chain_hash env.codec.sha256 prev (encode (env.codec.sha256 logs))
        (env.codec.uuid_text inputs.new_id);
  byte_count = meta.size;
  log_count = meta.lines;
  attempts = 0;
  err_msg = [];
  verified_at = none;
  created_at = created;
  updated_at = stored;
}

-- The upload of the logs of the payload's period, for the customer and the zone.
abbrev pub upload_for : LogPullPayload → Customer → Zone → Bytes → Upload
upload_for payload c z logs = record {
  customer_id = c.id;
  zone_id = z.id;
  from = payload.period_start;
  to = payload.period_end;
  raw = logs;
  log_type = codes "logs";
}

-- How a stage ends: it succeeds, and these are the database and the providers.
abbrev pub Ends : Outcome (Unit {0}) × World → Db → List Backend → Type 0
Ends (r, w) d cs = (r ≡ ok tt) × (w.db ≡ d) × (w.backends ≡ cs)

pub via :
    (r s : Outcome (Unit {0}) × World) {d : Db} {cs : List Backend}
    → r ≡ s
    → Ends s d cs
    → Ends r d cs
via r s {d} {cs} e = subst (λ r. Ends r d cs) (sym e)

pub enqueue-Ends :
    (env : Env) (w : World) (id : ℕ)
    → Ends (ignoring (enqueue env (new_log_verify_task id)) (pure tt) w) w.db w.backends
unfolding ignoring enqueue pure
enqueue-Ends env w id = elim (Bool-cases (env.queue_fails w.queue_calls)) [
  | inl e ↦ rw (e, enqueue) (refl, refl, refl)
  | inr e ↦ rw (e, enqueue) (refl, refl, refl)
]
