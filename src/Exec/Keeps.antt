-- ===== src/Exec/Keeps.antt =====
-- What a computation keeps, whatever fails: a property of the database that holds before and after.
-- One rule for each building block; `search` over the set proves a composition block by block.
use rainlogs.Prelude.{
  ℕ, ◌≡◌, refl, Bool, true, false, Option, arith, Bytes, Bool-cases, Option-cases, inl, inr,
  if◌then◌else◌,
}
use rainlogs.GoError.{GoError}
use rainlogs.Queue.{Task}
use rainlogs.Storage
use rainlogs.Storage.{Upload}
use rainlogs.Exec.{
  World, Env, Db, Outcome, ok, err, Exec, Alert, pure, raise, in_context, on_error, ignoring,
  db_query, db_query_row, db_exec, enqueue, put_logs, get_logs, delete_object, send_alert, sleep,
  time_now,
}

pub record Keeps {ℓ} {A : Type ℓ} (P : Db → Type 0) (m : Exec A) : Type 0 where
  pub at : (w : World) → P w.db → P (m w).1.db

in_context_cases {ℓ} :
    {A : Type ℓ} (context : Bytes) (m : Exec A) (w : World) → (in_context context m w).1 ≡ (m w).1
unfolding in_context
in_context_cases context m w = ground arith

module _ {ℓ} {P : Db → Type 0} {A : Type ℓ} where
  pub pure-Keeps : (a : A) → Keeps P (pure a)
  unfolding pure
  pure-Keeps a = record { at = λ w h. h }

  pub raise-Keeps : (e : GoError) → Keeps P (raise {A = A} e)
  unfolding raise
  raise-Keeps e = record { at = λ w h. h }

  pub if-Keeps : (b : Bool) (m n : Exec A) → Keeps P m → Keeps P n → Keeps P (if b then m else n)
  if-Keeps true m n km kn = km
  if-Keeps false m n km kn = kn

  -- The same, where each branch may use the outcome of the test.
  pub if_known-Keeps :
      (b : Bool) (m n : Exec A)
      → (b ≡ true → Keeps P m)
      → (b ≡ false → Keeps P n)
      → Keeps P (if b then m else n)
  if_known-Keeps true m n km kn = km refl
  if_known-Keeps false m n km kn = kn refl

  pub in_context-Keeps : (context : Bytes) (m : Exec A) → Keeps P m → Keeps P (in_context context m)
  in_context-Keeps context m k = record { at = λ w h. rw (in_context_cases context m w) (k.at w h) }

module _ {ℓ κ} {P : Db → Type 0} {A : Type ℓ} {B : Type κ} where
  on_error_cases :
      (h : GoError → Exec B) (k : A → Exec B)
      → ((e : GoError) → Keeps P (h e))
      → ((a : A) → Keeps P (k a))
      → (r : Outcome A) (w : World) → P w.db
      → P (elim r as (λ _. Outcome B × World) [ ok a ↦ k a w | err e ↦ h e w ]).1.db
  on_error_cases h k kh kk (ok a) w p = (kk a).at w p
  on_error_cases h k kh kk (err e) w p = (kh e).at w p

  pub on_error-Keeps :
      (m : Exec A) (h : GoError → Exec B) (k : A → Exec B)
      → Keeps P m
      → ((e : GoError) → Keeps P (h e))
      → ((a : A) → Keeps P (k a))
      → Keeps P (on_error m h k)
  unfolding on_error
  on_error-Keeps m h k km kh kk = record {
    at = λ w p. on_error_cases h k kh kk (m w).0 (m w).1 (km.at w p);
  }

  pub ignoring-Keeps : (m : Exec A) (k : Exec B) → Keeps P m → Keeps P k → Keeps P (ignoring m k)
  unfolding ignoring
  ignoring-Keeps m k km kk = record { at = λ w p. kk.at (m w).1 (km.at w p) }

module _ {P : Db → Type 0} (env : Env) where
  pub db_query-Keeps {ℓ} : {A : Type ℓ} (q : Db → ℕ → A) → Keeps P (db_query env q)
  unfolding db_query
  db_query-Keeps q = record {
    at = λ w h. elim (Bool-cases (env.db_fails w.db_calls)) [
      | inl e ↦ rw (e, db_query) h
      | inr e ↦ rw (e, db_query) h
    ];
  }

  pub db_query_row-Keeps {ℓ} : {A : Type ℓ} (q : Db → ℕ → Option A) → Keeps P (db_query_row env q)
  unfolding db_query_row
  db_query_row-Keeps q = record {
    at = λ w h. elim (Bool-cases (env.db_fails w.db_calls)) [
      | inl e ↦ rw (e, db_query_row) h
      | inr e ↦ rw (e, db_query_row) h
    ];
  }

  pub db_exec-Keeps :
      (f : Db → ℕ → Db) → ((d : Db) (now : ℕ) → P d → P (f d now)) → Keeps P (db_exec env f)
  unfolding db_exec
  db_exec-Keeps f keep = record {
    at = λ w h. elim (Bool-cases (env.db_fails w.db_calls)) [
      | inl e ↦ rw (e, db_exec) h
      | inr e ↦ rw (e, db_exec) (keep w.db w.now h)
    ];
  }

  pub enqueue-Keeps : (t : Task) → Keeps P (enqueue env t)
  unfolding enqueue
  enqueue-Keeps t = record {
    at = λ w h. elim (Bool-cases (env.queue_fails w.queue_calls)) [
      | inl e ↦ rw (e, enqueue) h
      | inr e ↦ rw (e, enqueue) h
    ];
  }

  pub put_logs-Keeps : (u : Upload) → Keeps P (put_logs env u)
  unfolding put_logs
  put_logs-Keeps u = record {
    at = λ w h. elim (Option-cases (Storage.put_logs env.codec u w.backends)) [
      | inl e ↦ rw (e, put_logs) h
      | inr (r, e) ↦ rw (e, put_logs) h
    ];
  }

  pub get_logs-Keeps : (key : Bytes) → Keeps P (get_logs env key)
  unfolding get_logs
  get_logs-Keeps key = record {
    at = λ w h. elim (Option-cases (Storage.get_logs env.codec key w.backends)) [
      | inl e ↦ rw (e, get_logs) h
      | inr (r, e) ↦ rw (e, get_logs) h
    ];
  }

  pub delete_object-Keeps : (key : Bytes) → Keeps P (delete_object env key)
  unfolding delete_object
  delete_object-Keeps key = record {
    at = λ w h. elim (Bool-cases (Storage.delete_object env.codec key w.backends).0) [
      | inl e ↦ rw (e, delete_object) h
      | inr e ↦ rw (e, delete_object) h
    ];
  }

module _ {P : Db → Type 0} where
  pub send_alert-Keeps : (a : Alert) → Keeps P (send_alert a)
  unfolding send_alert
  send_alert-Keeps a = record { at = λ w h. h }

  pub sleep-Keeps : (d : ℕ) → Keeps P (sleep d)
  unfolding sleep
  sleep-Keeps d = record { at = λ w h. h }

module _ {P : Db → Type 0} where
  pub time_now-Keeps : Keeps P time_now
  unfolding time_now
  time_now-Keeps = record { at = λ w h. h }

pub ruleset keeping = (
  pure-Keeps, raise-Keeps, if-Keeps, in_context-Keeps, on_error-Keeps, ignoring-Keeps,
  db_query-Keeps, db_query_row-Keeps, db_exec-Keeps, enqueue-Keeps, put_logs-Keeps, get_logs-Keeps,
  delete_object-Keeps, send_alert-Keeps, sleep-Keeps, time_now-Keeps,
)
