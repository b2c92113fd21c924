-- ===== src/Examples/ZoneRequests.antt =====
-- Requests about zones, in a table with the zones of two customers.
use rainlogs.Prelude.{arith, ◌≡◌, false, none, some, [], ◌∷◌, codes, pos}
use rainlogs.Models.{Zone, PlanType}
use rainlogs.Exec.{World}
use rainlogs.Examples.Setup.{env, db, world, zone}
use rainlogs.Api.Zones.{
  CreateZoneRequest, UpdateZoneRequest, create_zone, delete_zone, update_zone, trigger_pull,
}
use rainlogs.Api.Zones.Intervals.{AreSafe, requests-AreSafe}
use rainlogs.Api.Zones.Isolation.{foreign_zones, foreign_zones-requests}

abbrev other_zone : Zone
other_zone = record zone { id = 3; customer_id = 8 }

abbrev two_zones : World
two_zones = record world { db = record db { zones = zone ∷ other_zone ∷ [] } }

abbrev new_request : CreateZoneRequest
new_request = record {
  zone_id = codes "def";
  name = codes "shop.example";
  plan = PlanType.unset;
  pull_interval_secs = pos 600;
}

abbrev pause : UpdateZoneRequest
pause = record { name = none; plan = none; pull_interval_secs = none; active = some false }

foreign_zones-requests_example :
    (foreign_zones 1 (create_zone env 1 9 (some new_request) two_zones).1.db.zones
      ≡ foreign_zones 1 two_zones.db.zones)
    × (foreign_zones 1 (update_zone env 1 2 (some pause) two_zones).1.db.zones
        ≡ foreign_zones 1 two_zones.db.zones)
    × (foreign_zones 1 (trigger_pull env 1 2 two_zones).1.db.zones
        ≡ foreign_zones 1 two_zones.db.zones)
foreign_zones-requests_example =
    foreign_zones-requests 1 env 9 2 (some new_request) (some pause) two_zones

requests-AreSafe_example :
    AreSafe (create_zone env 1 9 (some new_request) two_zones).1.db.zones
    × AreSafe (update_zone env 1 2 (some pause) two_zones).1.db.zones
    × AreSafe (delete_zone env 1 2 two_zones).1.db.zones
    × AreSafe (trigger_pull env 1 2 two_zones).1.db.zones
requests-AreSafe_example =
    requests-AreSafe env 1 9 2 (some new_request) pause two_zones
      ((omega arith, omega arith), ((omega arith, omega arith), tt))
