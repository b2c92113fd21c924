-- ===== src/Examples/Signups.antt =====
-- A new customer, a pull for that customer, and a request for an export.
use rainlogs.Prelude.{◌≡◌, refl, arith, none, some, [], ◌∷◌, ◌++◌, Bytes, codes, pos}
use rainlogs.Models.{Customer, LogExport, ExportS3Config}
use rainlogs.Kms
use rainlogs.Queue.{new_log_export_task}
use rainlogs.Db.Customers
use rainlogs.Db.Exports
use rainlogs.Exec.{World, ok, pure, time_now, on_error, db_exec}
use rainlogs.Worker.Pull.{process_task}
use rainlogs.Examples.Setup.{env, db, world, inputs, payload, noon}
use rainlogs.Examples.KeyRing.{aead, ring, zero_nonce, ring-IsReady, no_colon, zero_nonce-bytes}
use rainlogs.Api.Signup.{
  CreateCustomerRequest, created, customer_of, stamped, insert_customer, save_customer,
  create_customer,
}
use rainlogs.Api.Signup.Quota.{create_customer-process_task}
use rainlogs.Api.ExportRequests
use rainlogs.Api.ExportRequests.{CreateExportRequest, create_export}
use rainlogs.Api.ExportRequests.Handover.{create_export-decrypt}

abbrev request : CreateCustomerRequest
request = record {
  name = codes "Shop";
  email = codes "ops@shop.example";
  cf_account_id = codes "acc";
  cf_api_key = codes "key";
  retention_days = pos 30;
}

abbrev shop : Customer
shop = stamped world.now (customer_of 9 request (codes "v1:00"))

abbrev after_signup : World
after_signup = record world {
  db = record db { customers = world.db.customers ++ shop ∷ [] };
  db_calls = 1;
}

shop_created :
    create_customer env (λ _. Kms.ok (codes "v1:00")) 9 (some request) world
    ≡ (ok (created shop), after_signup)
unfolding create_customer save_customer insert_customer pure time_now on_error db_exec
    Customers.email_taken Customers.create
shop_created = refl

create_customer-process_task_example :
    (process_task env inputs (record payload { customer_id = 9 }) after_signup).1.backends
    ≡ after_signup.backends
unfolding Customers.get_by_id
create_customer-process_task_example =
    create_customer-process_task env env (λ _. Kms.ok (codes "v1:00")) 9 (some request) shop inputs
      (record payload { customer_id = 9 }) world after_signup after_signup refl shop_created refl
      refl

abbrev bucket : ExportS3Config
bucket = record {
  endpoint = [];
  region = [];
  bucket = codes "shop";
  access_key_id = [];
  secret_access_key = [];
  path_prefix = [];
}

abbrev export_request : CreateExportRequest
export_request = record { s3_config = bucket; start = 0; end_ = noon }

create_export-decrypt_example :
    (x : LogExport) × (json : Bytes) × (w' : World) × (create_export env 1
        (Kms.encrypt aead ring (some zero_nonce))
        (λ c. c.bucket)
        4
        (some export_request)
        world
      ≡ (ok (ExportRequests.created x), w'))
    × (w'.queue ≡ world.queue ++ record { task = new_log_export_task 4; task_id = none } ∷ [])
    × (Exports.get_by_id 4 w'.db.log_exports ≡ some x)
    × (x.customer_id ≡ 1)
    × (Kms.decrypt aead ring x.s3_config_enc ≡ Kms.ok json)
    × (some (record bucket { bucket = json }) ≡ some bucket)
unfolding Exports.get_by_id
create_export-decrypt_example =
    create_export-decrypt env aead ring ring zero_nonce (λ c. c.bucket)
      (λ json. some (record bucket { bucket = json })) 1 4 export_request world refl ring-IsReady
      no_colon refl refl zero_nonce-bytes
      (omega arith, (omega arith, (omega arith, (omega arith, tt)))) refl refl refl
