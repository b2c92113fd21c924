-- ===== src/Examples/Requests.antt =====
-- A request with an API key.
use rainlogs.Prelude.{◌≡◌, refl, true, none, [], ◌∷◌, Bytes, codes}
use rainlogs.Models.{ApiKey, UserRole}
use rainlogs.Auth.{prefix_of, validate_api_key}
use rainlogs.Db.ApiKeys
use rainlogs.Api.Access.{pass, api_key_auth}
use rainlogs.Api.Access.Keys.{Opens, api_key_auth-Opens, api_key_auth-pass}
use rainlogs.Examples.Setup.{noon}
use rainlogs.Examples.Crypto.{bcrypt}

abbrev pub token : Bytes
token = codes "rl_AAAABBBBCCCC"

abbrev pub api_key : ApiKey
api_key = record {
  id = 5;
  customer_id = 1;
  prefix = codes "AAAABBBB";
  key_hash = token;
  label = [];
  role = UserRole.admin;
  created_at = 0;
  last_used_at = none;
  revoked_at = none;
  expires_at = none;
}

opened :
    api_key_auth bcrypt true noon (api_key ∷ []) (codes "Bearer rl_AAAABBBBCCCC") ≡ pass api_key
unfolding prefix_of ApiKeys.get_by_prefix validate_api_key
opened =
    api_key_auth-pass bcrypt noon (api_key ∷ []) [] token (codes "AAAABBBB") api_key refl refl refl
      refl refl

api_key_auth-Opens_example :
    Opens bcrypt noon (api_key ∷ []) (codes "Bearer rl_AAAABBBBCCCC") api_key
api_key_auth-Opens_example =
    api_key_auth-Opens bcrypt true noon (api_key ∷ []) (codes "Bearer rl_AAAABBBBCCCC") api_key
      opened
