-- ===== src/Exec/Reads.antt =====
-- The steps that change neither the database nor the providers.
use rainlogs.Prelude.{ℕ, ◌≡◌, refl, Option, inl, inr, Bool-cases}
use rainlogs.Exec.{World, Env, Db, Exec, Alert, db_query, db_query_row, sleep, send_alert}

-- A step that changes neither the database nor the providers.
pub record Reads {ℓ} {A : Type ℓ} (m : Exec A) : Type 0 where
  pub db : (w : World) → (m w).1.db ≡ w.db
  pub backends : (w : World) → (m w).1.backends ≡ w.backends

pub sleep-Reads : (d : ℕ) → Reads (sleep d)
unfolding sleep
sleep-Reads d = record { db = λ w. refl; backends = λ w. refl }

pub send_alert-Reads : (a : Alert) → Reads (send_alert a)
unfolding send_alert
send_alert-Reads a = record { db = λ w. refl; backends = λ w. refl }

module _ (env : Env) where
  pub db_query-Reads {ℓ} : {A : Type ℓ} (q : Db → ℕ → A) → Reads (db_query env q)
  unfolding db_query
  db_query-Reads q = record {
    db = λ w. elim (Bool-cases (env.db_fails w.db_calls)) [
      | inl e ↦ rw (e, db_query) refl
      | inr e ↦ rw (e, db_query) refl
    ];
    backends = λ w. elim (Bool-cases (env.db_fails w.db_calls)) [
      | inl e ↦ rw (e, db_query) refl
      | inr e ↦ rw (e, db_query) refl
    ];
  }

  pub db_query_row-Reads {ℓ} : {A : Type ℓ} (q : Db → ℕ → Option A) → Reads (db_query_row env q)
  unfolding db_query_row
  db_query_row-Reads q = record {
    db = λ w. elim (Bool-cases (env.db_fails w.db_calls)) [
      | inl e ↦ rw (e, db_query_row) refl
      | inr e ↦ rw (e, db_query_row) refl
    ];
    backends = λ w. elim (Bool-cases (env.db_fails w.db_calls)) [
      | inl e ↦ rw (e, db_query_row) refl
      | inr e ↦ rw (e, db_query_row) refl
    ];
  }
