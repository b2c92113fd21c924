-- ===== src/Api/Signup/Quota.antt =====
-- What the quota of a new customer lets through.
use rainlogs.Prelude.{
  ℕ, ◌≡◌, ap, subst, sym, ◌∙◌, refl, inl, inr, true, false, Option, none, some, Bytes, pos,
  Bool-cases,
}
use rainlogs.Models.{Customer}
use rainlogs.GoError.{GoError, database_error, unique_violation}
use rainlogs.Kms
use rainlogs.Db.Customers
use rainlogs.Queue.{LogPullPayload}
use rainlogs.Exec.{World, Env, Outcome, ok, err, Exec, pure, on_error, time_now}
use rainlogs.Exec.Steps.{on_ok, on_err, exec_runs, exec_fails, written, counted}
use rainlogs.Worker.Pull.{Inputs, process_task}
use rainlogs.Worker.Pull.NoQuota.{process_task-no_quota}
use rainlogs.Api.Signup.{
  Reply, status, created, CreateCustomerRequest, is_incomplete, customer_of, refusal, add_customer,
  insert_customer, save_customer, create_customer,
}
use rainlogs.Api.Signup.Secret.{get_by_id-create}

module _ (env : Env) (encrypt : Bytes → Kms.Result Bytes) (new_id : ℕ) where
  abbrev HasRow : World → Type 0
  HasRow w =
      (x : Customer) × (Customers.get_by_id new_id w.db.customers ≡ some x)
      × (x.quota_bytes ≡ pos 0)

  -- Where a customer was made, the row of the identifier has the quota 0.
  abbrev Made : Outcome Reply × World → Type 0
  Made r = elim r.0 [
    | err e ↦ Unit {0}
    | ok reply ↦ elim reply [ status n ↦ Unit {0} | created c ↦ HasRow r.1 ]
  ]

  refused-Made : (n : ℕ) (w : World) → Made (pure (status n) w)
  unfolding pure
  refused-Made n w = tt

  module _ (req : CreateCustomerRequest) (w : World)
      (fresh : Customers.get_by_id new_id w.db.customers ≡ none) where
    module _ (c : Customer) where
      insert_fails :
          env.db_fails w.db_calls ≡ true
          → (e : GoError) × (insert_customer env c w ≡ (err e, counted w))
      unfolding insert_customer
      insert_fails fails = (database_error, rw fails (exec_fails env (add_customer env c) w fails))

      insert_taken :
          env.db_fails w.db_calls ≡ false
          → Customers.email_taken c w.db.customers ≡ true
          → (e : GoError) × (insert_customer env c w ≡ (err e, counted w))
      unfolding insert_customer
      insert_taken runs taken = (unique_violation, rw (runs, taken) refl)

      insert_runs :
          env.db_fails w.db_calls ≡ false
          → Customers.email_taken c w.db.customers ≡ false
          → insert_customer env c w ≡ (ok tt, written (add_customer env c) w)
      unfolding insert_customer
      insert_runs runs free = rw (runs, free) (exec_runs env (add_customer env c) w runs)

    not_inserted :
        (c : Customer) (h : GoError → ℕ) (k : Unit {0} → Exec Reply)
        → (e : GoError) × (insert_customer env c w ≡ (err e, counted w))
        → Made (on_error (insert_customer env c) (λ e. pure (status (h e))) k w)
    unfolding pure
    not_inserted c h k (e, same) =
        subst Made (sym (on_err (insert_customer env c) (λ e. pure (status (h e))) k w same)) tt

    save_customer-Made : (r : Kms.Result Bytes) → Made (save_customer env new_id req r w)
    unfolding save_customer pure time_now
    save_customer-Made (Kms.err e) = refused-Made 500 w
    save_customer-Made (Kms.ok enc_key) =
        let c = customer_of new_id req enc_key in
        elim (Bool-cases (env.db_fails w.db_calls)) [
          | inl fails ↦ not_inserted c refusal _ (insert_fails c fails)
          | inr runs ↦ elim (Bool-cases (Customers.email_taken c w.db.customers)) [
            | inl taken ↦ not_inserted c refusal _ (insert_taken c runs taken)
            | inr free ↦
                subst Made (sym (on_ok _ _ _ w (insert_runs c runs free) ∙ on_ok _ _ _ _ refl))
                  (_, get_by_id-create w.now c w.db.customers refl fresh, refl)
          ]
        ]

    create_customer-some : Made (create_customer env encrypt new_id (some req) w)
    unfolding create_customer
    create_customer-some = elim (Bool-cases (is_incomplete req)) [
      | inl incomplete ↦ rw incomplete (refused-Made 400 w)
      | inr complete ↦ rw complete (save_customer-Made (encrypt req.cf_api_key))
    ]

  create_customer-Made :
      (req : Option CreateCustomerRequest) (w : World)
      → Customers.get_by_id new_id w.db.customers ≡ none
      → Made (create_customer env encrypt new_id req w)
  unfolding create_customer
  create_customer-Made none w fresh = refused-Made 400 w
  create_customer-Made (some req) w fresh = create_customer-some req w fresh

-- Whatever a customer asks for who is created under a new identifier, no pull for that customer stores
-- logs from then on, as long as the row of the customer is the one that the creation left: its quota
-- is 0, which any usage reaches.
pub create_customer-process_task :
    (env later : Env) (encrypt : Bytes → Kms.Result Bytes) (new_id : ℕ)
    (req : Option CreateCustomerRequest) (c : Customer) (inputs : Inputs) (payload : LogPullPayload)
    (w w₁ w' : World)
    → Customers.get_by_id new_id w.db.customers ≡ none
    → create_customer env encrypt new_id req w ≡ (ok (created c), w₁)
    → Customers.get_by_id new_id w'.db.customers ≡ Customers.get_by_id new_id w₁.db.customers
    → payload.customer_id ≡ new_id
    → (process_task later inputs payload w').1.backends ≡ w'.backends
create_customer-process_task env later encrypt new_id req c inputs payload w w₁ w' fresh made same
      own =
    let (x, found, spent) =
      subst (Made env encrypt new_id) made (create_customer-Made env encrypt new_id req w fresh) in
    process_task-no_quota later inputs payload x spent w'
      (ap (λ i. Customers.get_by_id i w'.db.customers) own ∙ same ∙ found)
