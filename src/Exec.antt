-- ===== src/Exec.antt =====
-- How the services run: a computation reads and changes the world, and may return an error.
--
-- The world is what outlives a call: the rows of the database, the stored objects, what was put into
-- buckets of customers, the queue, the alerts that were sent, the clock, and counters of the calls. Whether the n-th call of the
-- database or of Redis fails is decided by the environment, so a theorem that does not restrict it
-- holds for every pattern of failures. A statement that fails changes nothing.
pub mod Keeps
pub mod Gives
pub mod Reads
pub mod Steps
use rainlogs.Prelude.{
  ℕ, ◌+◌, ◌≡◌, refl, Bool, true, false, Option, none, some, List, [], ◌∷◌, ◌++◌, if◌then◌else◌,
  Bytes, ℤ,
}
use rainlogs.GoError.{GoError, text, wrap, database_error}
use rainlogs.Models.{ExportS3Config}
use rainlogs.Db.Customers
use rainlogs.Db.ApiKeys
use rainlogs.Db.Zones
use rainlogs.Db.LogJobs
use rainlogs.Db.Exports
use rainlogs.Db.Audit
use rainlogs.Queue.{Task, Entry, has_task_id}
use rainlogs.Storage
use rainlogs.Storage.{Codec, Upload, BlobMetadata, Backend}

pub record Db : Type 0 where
  pub customers : Customers.Table
  pub api_keys : ApiKeys.Table
  pub zones : Zones.Table
  pub log_jobs : LogJobs.Table
  pub log_exports : Exports.Table
  pub audit_events : Audit.Table

-- A call of NotificationService.SendAlert, whose failure the program only logs.
pub data Alert : Type 0 where
  quota_exceeded : (customer_id usage : ℕ) (limit : ℤ) → Alert
  events_limit : (zone_id : ℕ) → Alert
  security_failed : (zone_id : ℕ) → GoError → Alert
  stream_failed : (zone_id : ℕ) → GoError → Alert
  export_completed : (customer_id files : ℕ) → Alert
  export_failed : (customer_id : ℕ) → GoError → Alert

-- A PutObject to the bucket of a customer.
pub record Put : Type 0 where
  pub config : ExportS3Config
  pub key : Bytes
  pub body : Bytes

pub record World : Type 0 where
  pub db : Db
  pub backends : List Backend
  pub exported : List Put
  pub queue : List Entry
  pub alerts : List Alert
  pub now : ℕ
  pub db_calls : ℕ
  pub queue_calls : ℕ

pub record Env : Type 0 where
  pub codec : Codec
  pub db_fails : ℕ → Bool
  pub queue_fails : ℕ → Bool

pub data Outcome {ℓ} (A : Type ℓ) : Type ℓ where
  ok : A → Outcome A
  err : GoError → Outcome A

abbrev pub Exec {ℓ} : Type ℓ → Type ℓ
Exec A = World → Outcome A × World

module _ {ℓ} {A : Type ℓ} where
  unfoldable pub pure : A → Exec A
  pure a w = (ok a, w)

  unfoldable pub raise : GoError → Exec A
  raise e w = (err e, w)

  -- fmt.Errorf("context: %w", err) on the way out.
  unfoldable pub in_context : Bytes → Exec A → Exec A
  in_context context m w =
      let (r, w') = m w in elim r [ ok a ↦ (ok a, w') | err e ↦ (err (wrap context e), w') ]

module _ {ℓ κ} {A : Type ℓ} {B : Type κ} where
  -- A call whose result is dropped: `_ = m`.
  unfoldable pub ignoring : Exec A → Exec B → Exec B
  ignoring m k w = k (m w).1

  -- `a, err := m; if err != nil { return h(err) }; k(a)`
  unfoldable pub on_error : Exec A → (GoError → Exec B) → (A → Exec B) → Exec B
  unfolding pure raise in_context ignoring
  on_error m h k w = let (r, w') = m w in elim r [ ok a ↦ k a w' | err e ↦ h e w' ]

  infixl 5 ◌>>=◌ ◌>>◌
  abbrev pub ◌>>=◌ : Exec A → (A → Exec B) → Exec B
  m >>= k = on_error m raise k

  abbrev pub ◌>>◌ : Exec A → Exec B → Exec B
  m >> k = m >>= λ _. k

module _ (env : Env) where
  module _ {ℓ} {A : Type ℓ} where
    -- One statement that reads.
    unfoldable pub db_query : (Db → ℕ → A) → Exec A
    db_query q w =
        let w' = record w { db_calls = w.db_calls + 1 } in
        if env.db_fails w.db_calls then (err database_error, w') else (ok (q w.db w.now), w')

    abbrev row_or_error : Option A → Outcome A
    row_or_error none = err database_error
    row_or_error (some a) = ok a

    -- A statement that reads one row; no row is an error (pgx.ErrNoRows).
    unfoldable pub db_query_row : (Db → ℕ → Option A) → Exec A
    db_query_row q w =
        let w' = record w { db_calls = w.db_calls + 1 } in
        if env.db_fails w.db_calls
        then (err database_error, w')
        else (row_or_error (q w.db w.now), w')

  -- One statement that writes.
  unfoldable pub db_exec : (Db → ℕ → Db) → Exec (Unit {0})
  db_exec f w =
      let w' = record w { db_calls = w.db_calls + 1 } in
      if env.db_fails w.db_calls
      then (err database_error, w')
      else (ok tt, record w' { db = f w.db w.now })

  -- EnqueueContext without a task identifier.
  unfoldable pub enqueue : Task → Exec (Unit {0})
  enqueue t w =
      let w' = record w { queue_calls = w.queue_calls + 1 } in
      if env.queue_fails w.queue_calls
      then (err (text []), w')
      else (ok tt, record w' { queue = w.queue ++ record { task = t; task_id = none } ∷ [] })

  -- EnqueueContext with asynq.TaskID: `false` is ErrTaskIDConflict.
  unfoldable pub enqueue_unique : Bytes → Task → Exec Bool
  enqueue_unique id t w =
      let w' = record w { queue_calls = w.queue_calls + 1 } in
      if env.queue_fails w.queue_calls
      then (err (text []), w')
      else if has_task_id id w.queue
      then (ok false, w')
      else (ok true, record w' { queue = w.queue ++ record { task = t; task_id = some id } ∷ [] })

  -- MultiStore.PutLogs: the metadata of the blob and the label of the provider.
  unfoldable pub put_logs : Upload → Exec (BlobMetadata × Bytes)
  put_logs u w = elim (Storage.put_logs env.codec u w.backends) [
    | none ↦ (err (text []), w)
    | some (label, cs) ↦ (ok (Storage.prepare_blob env.codec u, label), record w { backends = cs })
  ]

  -- MultiStore.GetLogs
  unfoldable pub get_logs : Bytes → Exec Bytes
  get_logs key w = elim (Storage.get_logs env.codec key w.backends) [
    | none ↦ (err (text []), w)
    | some raw ↦ (ok raw, w)
  ]

  -- MultiStore.DeleteObject
  unfoldable pub delete_object : Bytes → Exec (Unit {0})
  delete_object key w =
      let (done, cs) = Storage.delete_object env.codec key w.backends in
      if done
      then (ok tt, record w { backends = cs })
      else (err (text []), record w { backends = cs })

unfoldable pub send_alert : Alert → Exec (Unit {0})
send_alert a w = (ok tt, record w { alerts = w.alerts ++ a ∷ [] })

-- A wait of that many nanoseconds.
unfoldable pub sleep : ℕ → Exec (Unit {0})
sleep d w = (ok tt, record w { now = w.now + d })

unfoldable pub time_now : Exec ℕ
time_now w = (ok w.now, w)
