-- ===== src/Examples/Trails.antt =====
-- A refused request in the audit trail.
use rainlogs.Prelude.{ℕ, ◌+◌, ◌≡◌, refl, inr, some, [], ◌++◌, if◌then◌else◌, codes, bytes_eq}
use rainlogs.Exec.{World, ok, pure}
use rainlogs.Examples.Setup.{env, world}
use rainlogs.Api.Trail.{Request, Handled, http_error, audit_log}
use rainlogs.Api.Trail.Recorded.{HasNames, trail, its_events, audit_log-trail}

abbrev removal : Request
removal = record {
  method = codes "DELETE";
  path = codes "/api/v1/zones/:zone_id";
  param = λ name. if bytes_eq name (codes "zone_id") then codes "2" else [];
  customer_id = some 1;
  request_id = codes "r";
  real_ip = codes "192.0.2.1";
}

abbrev refused : Handled
refused = record { status = 200; error = some (http_error 403) }

audit_log-trail_example :
    (w'' : World) × (audit_log env 9 removal (pure refused) world ≡ (ok refused, w''))
    × ((other : ℕ)
        → trail other w''
          ≡ trail other world
            ++ its_events env 9 1 removal (pure refused) refused world world other)
    × (w'' ≡ record world {
      db = record world.db { audit_events = w''.db.audit_events };
      db_calls = world.db_calls + 1;
    })
    × HasNames (codes "/api/v1")
    × HasNames (codes "/dashboard")
unfolding pure
audit_log-trail_example =
    audit_log-trail env 9 1 removal (pure refused) refused world world (inr (inr refl)) refl refl
      refl refl
