-- ===== src/Exec/Gives.antt =====
-- What a computation returns, whatever fails: a property of its result where it is no error.
use rainlogs.Prelude.{
  ℕ, ◌≡◌, refl, Bool, true, false, Option, some, Bool-cases, Option-cases, inl, inr, if◌then◌else◌,
}
use rainlogs.GoError.{GoError}
use rainlogs.Exec.{World, Env, Db, Outcome, ok, err, Exec, pure, on_error, db_query, db_query_row}

abbrev pub IfOk {ℓ κ} : {A : Type ℓ} → (A → Type κ) → Outcome A → Type κ
IfOk P (ok a) = P a
IfOk P (err e) = Unit

pub record Gives {ℓ κ} {A : Type ℓ} (P : A → Type κ) (m : Exec A) : Type κ where
  pub at : (w : World) → IfOk P (m w).0

module _ {ℓ κ} {A : Type ℓ} (P : A → Type κ) where
  pub pure-Gives : (a : A) → P a → Gives P (pure a)
  unfolding pure
  pure-Gives a h = record { at = λ w. h }

  pub if-Gives :
      (b : Bool) (m n : Exec A)
      → (b ≡ true → Gives P m)
      → (b ≡ false → Gives P n)
      → Gives P (if b then m else n)
  if-Gives true m n gm gn = gm refl
  if-Gives false m n gm gn = gn refl

  -- A computation of which nothing is known.
  pub any-Gives : (m : Exec A) → ((a : A) → P a) → Gives P m
  any-Gives m h = record { at = λ w. each (m w).0 }
    where
      each : (r : Outcome A) → IfOk P r
      each (ok a) = h a
      each (err e) = tt

module _ {ℓ κ μ ν} {A : Type ℓ} {B : Type κ} (Q : A → Type μ) (P : B → Type ν) where
  pub on_error-Gives :
      (m : Exec A) (h : GoError → Exec B) (k : A → Exec B)
      → Gives Q m
      → ((e : GoError) → Gives P (h e))
      → ((a : A) → Q a → Gives P (k a))
      → Gives P (on_error m h k)
  unfolding on_error
  on_error-Gives m h k gm gh gk = record { at = λ w. cases (m w).0 (m w).1 (gm.at w) }
    where
      cases :
          (r : Outcome A) (w : World)
          → IfOk Q r
          → IfOk P (elim r as (λ _. Outcome B × World) [ ok a ↦ k a w | err e ↦ h e w ]).0
      cases (ok a) w q = (gk a q).at w
      cases (err e) w q = (gh e).at w

module _ {ℓ κ} (env : Env) {A : Type ℓ} (P : A → Type κ) where
  pub db_query-Gives :
      (q : Db → ℕ → A) → ((d : Db) (now : ℕ) → P (q d now)) → Gives P (db_query env q)
  unfolding db_query
  db_query-Gives q h = record {
    at = λ w. elim (Bool-cases (env.db_fails w.db_calls)) [
      | inl e ↦ rw (e, db_query) tt
      | inr e ↦ rw (e, db_query) (h w.db w.now)
    ];
  }

  pub db_query_row-Gives :
      (q : Db → ℕ → Option A)
      → ((d : Db) (now : ℕ) (a : A) → q d now ≡ some a → P a)
      → Gives P (db_query_row env q)
  unfolding db_query_row
  db_query_row-Gives q h = record {
    at = λ w. elim (Bool-cases (env.db_fails w.db_calls)) [
      | inl e ↦ rw (e, db_query_row) tt
      | inr e ↦ elim (Option-cases (q w.db w.now)) [
        | inl missing ↦ rw (e, missing, db_query_row) tt
        | inr (a, found) ↦ rw (e, found, db_query_row) (h w.db w.now a found)
      ]
    ];
  }
