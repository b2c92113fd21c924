-- ===== src/Api/Signup/Secret.antt =====
-- The Cloudflare key of a new customer.
use rainlogs.Prelude.{
  ℕ, ◌≡◌, refl, ap, true, false, ==_refl, none, some, find_first, find_first-append, Bytes,
  bytes_eq, length, All,
}
use rainlogs.Hex.RoundTrip.{IsByte}
use rainlogs.Models.{Customer}
use rainlogs.Kms
use rainlogs.Kms.{Aead, Encryptor, nonce_size, lookup}
use rainlogs.Kms.RoundTrip.{IsReady, HasNoColon, decrypt-encrypt}
use rainlogs.Db.Customers
use rainlogs.Exec.{World, Env, ok, pure, on_error, time_now}
use rainlogs.Exec.Steps.{on_ok, exec_runs, written}
use rainlogs.Api.Signup.{
  status, created, CreateCustomerRequest, is_incomplete, customer_of, stamped, refusal,
  add_customer, insert_customer, save_customer, create_customer,
}

pub get_by_id-create :
    (now : ℕ) (c : Customer) (t : Customers.Table)
    → c.deleted_at ≡ none
    → Customers.get_by_id c.id t ≡ none
    → Customers.get_by_id c.id (Customers.create now c t)
      ≡ some (record c { created_at = now; updated_at = now; deleted_at = none })
unfolding Customers.get_by_id Customers.create
get_by_id-create now c t live fresh = find_first-append _ t _ fresh (rw (==_refl c.id) refl)

email_free :
    (c : Customer) (t : Customers.Table)
    → find_first (λ r. bytes_eq r.email c.email) t ≡ none
    → Customers.email_taken c t ≡ false
unfolding Customers.email_taken
email_free c t free = ap (λ r. elim r [ none ↦ false | some _ ↦ true ]) free

module _ (env : Env) (aead : Aead) (e later : Encryptor) (nonce : Bytes) where
  insert_customer_runs :
      (c : Customer) (w : World)
      → env.db_fails w.db_calls ≡ false
      → find_first (λ r. bytes_eq r.email c.email) w.db.customers ≡ none
      → insert_customer env c w ≡ (ok tt, written (add_customer env c) w)
  unfolding insert_customer
  insert_customer_runs c w runs free =
      rw (runs, email_free c w.db.customers free) (exec_runs env (add_customer env c) w runs)

  -- From a complete request, with a ready key ring, a database that answers, and an identifier and an
  -- address that are free, CreateCustomer makes a customer that is found again, and whose Cloudflare key
  -- a key ring decrypts that still has the key with which it was encrypted.
  create_customer-decrypt :
      (new_id : ℕ) (req : CreateCustomerRequest) (w : World)
      → is_incomplete req ≡ false
      → IsReady e
      → HasNoColon e.active_key_id
      → lookup e.active_key_id later.keys ≡ lookup e.active_key_id e.keys
      → length nonce ≡ nonce_size
      → All IsByte nonce
      → All IsByte req.cf_api_key
      → env.db_fails w.db_calls ≡ false
      → find_first (λ c. bytes_eq c.email req.email) w.db.customers ≡ none
      → Customers.get_by_id new_id w.db.customers ≡ none
      → (c : Customer) × (w' : World) × (create_customer env
            (Kms.encrypt aead e (some nonce))
            new_id
            (some req)
            w
          ≡ (ok (created c), w'))
        × (Customers.get_by_id new_id w'.db.customers ≡ some c)
        × (Kms.decrypt aead later c.cf_api_key_enc ≡ Kms.ok req.cf_api_key)
  unfolding create_customer save_customer on_error pure time_now
  create_customer-decrypt new_id req w complete ready clean same size bytes key_bytes runs free
        fresh =
      let (enc_key, seals, opens) =
        decrypt-encrypt aead e later nonce req.cf_api_key ready clean same size bytes key_bytes in
      let c = customer_of new_id req enc_key in
      (
        stamped w.now c,
        written (add_customer env c) w,
        rw (complete, seals)
            (on_ok (insert_customer env c) (λ e. pure (status (refusal e)))
              (λ _.
                on_error time_now (λ e. pure (status 500)) (λ now. pure (created (stamped now c))))
              w (insert_customer_runs c w runs free)),
        get_by_id-create w.now c w.db.customers refl fresh,
        opens,
      )
