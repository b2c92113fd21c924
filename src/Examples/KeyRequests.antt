-- ===== src/Examples/KeyRequests.antt =====
-- A revoked key beside one that is not, and a key that is issued.
use rainlogs.Prelude.{◌≡◌, ◌≢◌, ◌++◌, refl, true, some, [], ◌∷◌, codes, take, pos}
use rainlogs.Models.{ApiKey, UserRole}
use rainlogs.Auth.{
  prefix_of, validate_api_key, GeneratedKey, generate_api_key, base64_url, token_prefix, prefix_len,
}
use rainlogs.Db.ApiKeys
use rainlogs.Exec.{ok, World, pure, on_error, db_query_row, db_exec}
use rainlogs.Examples.Setup.{env, db, world, noon}
use rainlogs.Examples.Crypto.{bcrypt}
use rainlogs.Examples.KeyRing.{repeat}
use rainlogs.Examples.Requests.{token, api_key}
use rainlogs.Api.KeyRequests.{new_key, CreateApiKeyRequest, create_api_key, revoke_api_key}
use rainlogs.Api.KeyRequests.Issue.{issued, create_api_key-api_key_auth}
use rainlogs.Api.KeyRequests.Revocation.{revoke_api_key-api_key_auth}
use rainlogs.Api.Access.{pass, api_key_auth}
use rainlogs.Api.Access.Keys.{api_key_auth-pass}

abbrev spare_key : ApiKey
spare_key = record api_key { id = 6 }

abbrev two_keys : World
two_keys = record world { db = record db { api_keys = api_key ∷ spare_key ∷ [] } }

revoke_api_key-api_key_auth_example : spare_key.id ≢ 5
unfolding revoke_api_key pure on_error db_query_row db_exec ApiKeys.get_by_customer_and_id
    ApiKeys.revoke prefix_of ApiKeys.get_by_prefix validate_api_key
revoke_api_key-api_key_auth_example =
    revoke_api_key-api_key_auth env 1 5 two_keys (revoke_api_key env 1 5 two_keys).1 bcrypt true
      noon (codes "Bearer rl_AAAABBBBCCCC") spare_key refl
      (api_key_auth-pass bcrypt noon (revoke_api_key env 1 5 two_keys).1.db.api_keys [] token
        (codes "AAAABBBB") spare_key refl refl refl refl refl)

abbrev key_request : CreateApiKeyRequest
key_request = record { label = codes "ci"; expires_in_days = pos 30; role = UserRole.viewer }

abbrev made_key : GeneratedKey
made_key = record {
  plaintext = token_prefix ++ base64_url (repeat 32 7);
  hash = token_prefix ++ base64_url (repeat 32 7);
  prefix = take prefix_len (base64_url (repeat 32 7));
}

create_api_key-api_key_auth_example :
    (w' : World) × (create_api_key env 1 bcrypt (some (repeat 32 7)) 9 (some key_request) two_keys
      ≡ (ok (new_key (issued env 1 9 key_request made_key two_keys.now) made_key.plaintext), w'))
    × (api_key_auth bcrypt true w'.now w'.db.api_keys (codes "Bearer " ++ made_key.plaintext)
        ≡ pass (issued env 1 9 key_request made_key two_keys.now))
unfolding base64_url generate_api_key ApiKeys.get_by_prefix
create_api_key-api_key_auth_example =
    create_api_key-api_key_auth env 1 9 key_request bcrypt (repeat 32 7) made_key two_keys refl refl
      refl refl refl refl
