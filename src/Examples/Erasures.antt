-- ===== src/Examples/Erasures.antt =====
-- The erasure of a customer, beside the key of another.
use rainlogs.Prelude.{◌≢◌, ◌==◌, refl, true, [], ◌∷◌, codes}
use rainlogs.Models.{ApiKey}
use rainlogs.Auth.{prefix_of, validate_api_key}
use rainlogs.Db.ApiKeys
use rainlogs.Db.LogJobs
use rainlogs.Exec.{Env, World, pure, on_error, ignoring, db_query, db_exec}
use rainlogs.Examples.Setup.{env, db, world, noon}
use rainlogs.Examples.Crypto.{bcrypt}
use rainlogs.Examples.Requests.{token, api_key}
use rainlogs.Api.Access.Keys.{api_key_auth-pass}
use rainlogs.Api.Erasure.{erase_jobs, erase_objects, erase_rows, delete_customer}
use rainlogs.Api.Erasure.Shut.{delete_customer-api_key_auth}

abbrev other_key : ApiKey
other_key = record api_key { id = 6; customer_id = 8 }

abbrev two_keys : World
two_keys = record world { db = record db { api_keys = api_key ∷ other_key ∷ [] } }

-- The third call of the database fails.
abbrev third_fails : Env
third_fails = record env { db_fails = λ n. n == 2 }

delete_customer-api_key_auth_example : other_key.customer_id ≢ 1
unfolding delete_customer erase_objects erase_rows erase_jobs pure on_error ignoring db_query
    db_exec LogJobs.list_by_customer ApiKeys.revoke_by_customer prefix_of ApiKeys.get_by_prefix
    validate_api_key
delete_customer-api_key_auth_example =
    delete_customer-api_key_auth env (λ n. refl) 1 two_keys bcrypt true noon
      (codes "Bearer rl_AAAABBBBCCCC") other_key
      (api_key_auth-pass bcrypt noon (delete_customer env 1 1 two_keys).1.db.api_keys [] token
        (codes "AAAABBBB") other_key refl refl refl refl refl)
