-- ===== src/Examples/Setup.antt =====
-- A small world: one customer with one zone, one provider, and stand-ins for the ciphers and hashes.
use rainlogs.Prelude.{
  ℕ, ◌+◌, ◌*◌, ◌%◌, refl, true, false, Option, none, some, [], ◌∷◌, Bytes, codes, length, negsuc,
}
use rainlogs.Models.{Customer, Zone, PlanType}
use rainlogs.Calendar.{second, hour, decimal}
use rainlogs.Kms
use rainlogs.Storage.{Codec, Backend}
use rainlogs.Queue.{LogPullPayload}
use rainlogs.Cloudflare.Logpull.{response, Service}
use rainlogs.Exec.{World, Env, Db}
use rainlogs.Worker.Pull.{Inputs}

-- A hash of one byte.
abbrev pub short_hash : Bytes → Bytes
short_hash b = (length b % 256) ∷ []

abbrev pub unmark : Bytes → Option Bytes
unmark [] = none
unmark (c ∷ b) = some b

abbrev pub codec : Codec
codec = record {
  sha256 = short_hash;
  gzip = λ raw. 31 ∷ raw;
  gunzip = unmark;
  uuid_text = decimal;
  gunzip-gzip = λ raw. refl;
}

abbrev pub env : Env
env = record { codec = codec; db_fails = λ _. false; queue_fails = λ _. false }

abbrev pub customer : Customer
customer = record {
  id = 1;
  name = codes "ACME";
  email = codes "ops@acme.example";
  cf_account_id = [];
  cf_api_key_enc = codes "v1:00";
  retention_days = 30;
  created_at = 0;
  updated_at = 0;
  deleted_at = none;
  quota_bytes = negsuc 0;
}

abbrev pub zone : Zone
zone = record {
  id = 2;
  customer_id = 1;
  zone_id = codes "abc";
  name = codes "acme.example";
  plan = PlanType.enterprise;
  pull_interval_secs = 3600;
  last_pulled_at = none;
  active = true;
  created_at = 0;
  deleted_at = none;
}

abbrev pub provider : Backend
provider = record {
  provider = codes "garage";
  objects = [];
  accepts_put = true;
  accepts_get = true;
  accepts_delete = true;
}

abbrev pub noon : ℕ
noon = 1767225600 * second

abbrev pub db : Db
db = record {
  customers = customer ∷ [];
  api_keys = [];
  zones = zone ∷ [];
  log_jobs = [];
  log_exports = [];
  audit_events = [];
}

abbrev pub world : World
world = record {
  db = db;
  backends = provider ∷ [];
  exported = [];
  queue = [];
  alerts = [];
  now = noon + 2 * hour;
  db_calls = 0;
  queue_calls = 0;
}

abbrev pub logs : Bytes
logs = codes "{}"

abbrev pub answer : Service
answer r = response (record { status = 200; retry_after = []; gzipped = false; body = some logs })

abbrev pub inputs : Inputs
inputs = record {
  new_id = 7;
  decrypt = λ _. Kms.ok (codes "token");
  cloudflare = answer;
  cancelled = false;
}

abbrev pub payload : LogPullPayload
payload = record { zone_id = 2; customer_id = 1; period_start = noon; period_end = noon + hour }
