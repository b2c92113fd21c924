-- ===== src/Exec/Steps.antt =====
-- How a computation goes when the result of its first step is known.
use rainlogs.Prelude.{
  ℕ, ◌+◌, ◌≡◌, refl, ap, Bool, true, false, if◌then◌else◌, Option, none, some, List, [], ◌∷◌, ◌++◌,
  Bytes,
}
use rainlogs.GoError.{GoError, text, wrap, database_error}
use rainlogs.Queue.{Task, has_task_id}
use rainlogs.Storage
use rainlogs.Storage.{Upload, Backend}
use rainlogs.Exec.{
  World, Env, Db, Outcome, ok, err, Exec, in_context, on_error, db_query, db_query_row, db_exec,
  enqueue_unique, put_logs, get_logs, delete_object, sleep,
}

module _ {ℓ κ} {A : Type ℓ} {B : Type κ} (m : Exec A) (h : GoError → Exec B) (k : A → Exec B)
    (w : World) where
  pub on_ok : {a : A} {w' : World} → m w ≡ (ok a, w') → on_error m h k w ≡ k a w'
  unfolding on_error
  on_ok e = ap (λ s. elim s.0 as (λ _. Outcome B × World) [ ok a ↦ k a s.1 | err e ↦ h e s.1 ]) e

  pub on_err : {x : GoError} {w' : World} → m w ≡ (err x, w') → on_error m h k w ≡ h x w'
  unfolding on_error
  on_err e = ap (λ s. elim s.0 as (λ _. Outcome B × World) [ ok a ↦ k a s.1 | err e ↦ h e s.1 ]) e

module _ {ℓ} {A : Type ℓ} (c : Bytes) (m : Exec A) (w : World) where
  pub context_ok : {a : A} {w' : World} → m w ≡ (ok a, w') → in_context c m w ≡ (ok a, w')
  unfolding in_context
  context_ok e =
      ap
        (λ s. elim s.0 as (λ _. Outcome A × World) [
          | ok a ↦ (ok a, s.1)
          | err e ↦ (err (wrap c e), s.1)
        ])
        e

  pub context_err :
      {x : GoError} {w' : World} → m w ≡ (err x, w') → in_context c m w ≡ (err (wrap c x), w')
  unfolding in_context
  context_err e =
      ap
        (λ s. elim s.0 as (λ _. Outcome A × World) [
          | ok a ↦ (ok a, s.1)
          | err e ↦ (err (wrap c e), s.1)
        ])
        e

module _ {ℓ} {A : Type ℓ} (b : Bool) (m n : Exec A) (w : World) where
  pub if_yes : b ≡ true → (if b then m else n) w ≡ m w
  if_yes e = ap (λ b. (if b then m else n) w) e

  pub if_no : b ≡ false → (if b then m else n) w ≡ n w
  if_no e = ap (λ b. (if b then m else n) w) e

pub sleep_done : (d : ℕ) (w : World) → sleep d w ≡ (ok tt, record w { now = w.now + d })
unfolding sleep
sleep_done d w = refl

abbrev pub counted : World → World
counted w = record w { db_calls = w.db_calls + 1 }

abbrev pub written : (Db → ℕ → Db) → World → World
written f w = record w { db = f w.db w.now; db_calls = w.db_calls + 1 }

abbrev pub asked : World → World
asked w = record w { queue_calls = w.queue_calls + 1 }

abbrev pub queued : Bytes → Task → World → World
queued id t w = record w {
  queue_calls = w.queue_calls + 1;
  queue = w.queue ++ record { task = t; task_id = some id } ∷ [];
}

module _ (env : Env) where
  pub exec_fails :
      (f : Db → ℕ → Db) (w : World)
      → env.db_fails w.db_calls ≡ true
      → db_exec env f w ≡ (err database_error, counted w)
  unfolding db_exec
  exec_fails f w e = rw (e, db_exec) refl

  pub exec_runs :
      (f : Db → ℕ → Db) (w : World)
      → env.db_fails w.db_calls ≡ false
      → db_exec env f w ≡ (ok tt, written f w)
  unfolding db_exec
  exec_runs f w e = rw (e, db_exec) refl

  module _ {ℓ} {A : Type ℓ} where
    pub query_fails :
        (q : Db → ℕ → A) (w : World)
        → env.db_fails w.db_calls ≡ true
        → db_query env q w ≡ (err database_error, counted w)
    unfolding db_query
    query_fails q w e = rw (e, db_query) refl

    pub query_runs :
        (q : Db → ℕ → A) (w : World)
        → env.db_fails w.db_calls ≡ false
        → db_query env q w ≡ (ok (q w.db w.now), counted w)
    unfolding db_query
    query_runs q w e = rw (e, db_query) refl

    pub row_fails :
        (q : Db → ℕ → Option A) (w : World)
        → env.db_fails w.db_calls ≡ true
        → db_query_row env q w ≡ (err database_error, counted w)
    unfolding db_query_row
    row_fails q w e = rw (e, db_query_row) refl

    pub row_found :
        (q : Db → ℕ → Option A) (w : World) {a : A}
        → env.db_fails w.db_calls ≡ false
        → q w.db w.now ≡ some a
        → db_query_row env q w ≡ (ok a, counted w)
    unfolding db_query_row
    row_found q w e found = rw (e, found, db_query_row) refl

    pub row_missing :
        (q : Db → ℕ → Option A) (w : World)
        → env.db_fails w.db_calls ≡ false
        → q w.db w.now ≡ none
        → db_query_row env q w ≡ (err database_error, counted w)
    unfolding db_query_row
    row_missing q w e missing = rw (e, missing, db_query_row) refl

  pub put_done :
      (u : Upload) (w : World) {label : Bytes} {cs : List Backend}
      → Storage.put_logs env.codec u w.backends ≡ some (label, cs)
      → put_logs env u w
        ≡ (ok (Storage.prepare_blob env.codec u, label), record w { backends = cs })
  unfolding put_logs
  put_done u w e = rw (e, put_logs) refl

  pub put_failed :
      (u : Upload) (w : World)
      → Storage.put_logs env.codec u w.backends ≡ none
      → put_logs env u w ≡ (err (text []), w)
  unfolding put_logs
  put_failed u w e = rw (e, put_logs) refl

  pub get_done :
      (key : Bytes) (w : World) {raw : Bytes}
      → Storage.get_logs env.codec key w.backends ≡ some raw
      → get_logs env key w ≡ (ok raw, w)
  unfolding get_logs
  get_done key w e = rw (e, get_logs) refl

  pub get_failed :
      (key : Bytes) (w : World)
      → Storage.get_logs env.codec key w.backends ≡ none
      → get_logs env key w ≡ (err (text []), w)
  unfolding get_logs
  get_failed key w e = rw (e, get_logs) refl

  pub delete_done :
      (key : Bytes) (w : World) {cs : List Backend}
      → Storage.delete_object env.codec key w.backends ≡ (true, cs)
      → delete_object env key w ≡ (ok tt, record w { backends = cs })
  unfolding delete_object
  delete_done key w {cs} e =
      ap
        (λ r.
          if r.0
          then (ok tt, record w { backends = r.1 })
          else (err (text []), record w { backends = r.1 }))
        e

  module _ (id : Bytes) (t : Task) (w : World) where
    pub unique_fails :
        env.queue_fails w.queue_calls ≡ true → enqueue_unique env id t w ≡ (err (text []), asked w)
    unfolding enqueue_unique
    unique_fails e = rw (e, enqueue_unique) refl

    pub unique_taken :
        env.queue_fails w.queue_calls ≡ false
        → has_task_id id w.queue ≡ true
        → enqueue_unique env id t w ≡ (ok false, asked w)
    unfolding enqueue_unique
    unique_taken e taken = rw (e, taken, enqueue_unique) refl

    pub unique_new :
        env.queue_fails w.queue_calls ≡ false
        → has_task_id id w.queue ≡ false
        → enqueue_unique env id t w ≡ (ok true, queued id t w)
    unfolding enqueue_unique
    unique_new e fresh = rw (e, fresh, enqueue_unique) refl
