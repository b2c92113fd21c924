-- ===== src/Api/Signup.antt =====
-- CreateCustomer of internal/api/handlers/handlers.go; a body that Bind refuses is `none`. The identifier
-- of the customer and the key ring's Encrypt are arguments.
pub mod Secret
pub mod Quota
use rainlogs.Prelude.{
  ℕ, ◌+◌, Bool, true, false, ◌||◌, Option, none, some, if◌then◌else◌, is_empty, Bytes, ℤ, pos,
  pos_part, ltb_ℤ,
}
use rainlogs.Models.{Customer}
use rainlogs.GoError.{GoError, unique_violation, is_unique_violation}
use rainlogs.Kms
use rainlogs.Db.Customers
use rainlogs.Exec.{World, Env, Db, err, Exec, pure, on_error, db_exec, time_now}

pub data Reply : Type 0 where
  status : ℕ → Reply
  created : Customer → Reply

pub record CreateCustomerRequest : Type 0 where
  pub name : Bytes
  pub email : Bytes
  pub cf_account_id : Bytes
  pub cf_api_key : Bytes
  pub retention_days : ℤ

abbrev pub is_incomplete : CreateCustomerRequest → Bool
is_incomplete req =
    is_empty req.name
    || is_empty req.email
    || is_empty req.cf_account_id
    || is_empty req.cf_api_key
    || ltb_ℤ req.retention_days (pos 1)

-- QuotaBytes is left at its zero.
abbrev pub customer_of : ℕ → CreateCustomerRequest → Bytes → Customer
customer_of new_id req enc_key = record {
  id = new_id;
  name = req.name;
  email = req.email;
  cf_account_id = req.cf_account_id;
  cf_api_key_enc = enc_key;
  retention_days = pos_part req.retention_days;
  created_at = 0;
  updated_at = 0;
  deleted_at = none;
  quota_bytes = pos 0;
}

abbrev pub stamped : ℕ → Customer → Customer
stamped now c = record c { created_at = now; updated_at = now }

abbrev pub refusal : GoError → ℕ
refusal e = if is_unique_violation e then 409 else 500

module _ (env : Env) where
  abbrev pub add_customer : Customer → Db → ℕ → Db
  add_customer c d now = record d { customers = Customers.create now c d.customers }

  -- The INSERT, which the unique index of the addresses may refuse.
  unfoldable pub insert_customer : Customer → Exec (Unit {0})
  insert_customer c w =
      if env.db_fails w.db_calls
      then db_exec env (add_customer c) w
      else if Customers.email_taken c w.db.customers
      then (err unique_violation, record w { db_calls = w.db_calls + 1 })
      else db_exec env (add_customer c) w

  -- From the encrypted key on. The insert returns the times of the row.
  unfoldable pub save_customer : ℕ → CreateCustomerRequest → Kms.Result Bytes → Exec Reply
  save_customer new_id req (Kms.err e) = pure (status 500)
  save_customer new_id req (Kms.ok enc_key) =
      let c = customer_of new_id req enc_key in
      on_error (insert_customer c) (λ e. pure (status (refusal e)))
        λ _. on_error time_now (λ e. pure (status 500)) (λ now. pure (created (stamped now c)))

  -- CreateCustomer
  unfoldable pub create_customer :
      (Bytes → Kms.Result Bytes) → ℕ → Option CreateCustomerRequest → Exec Reply
  unfolding save_customer
  create_customer encrypt new_id none = pure (status 400)
  create_customer encrypt new_id (some req) =
      if is_incomplete req
      then pure (status 400)
      else save_customer new_id req (encrypt req.cf_api_key)
