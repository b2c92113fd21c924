-- ===== src/Examples/Syncs.antt =====
-- A synchronisation of the streams with the zones.
use rainlogs.Prelude.{◌≡◌, refl, not, ◌&&◌, some, List, [], ◌∷◌}
use rainlogs.Models.{Zone, PlanType}
use rainlogs.Worker.Streams.Sync.{Streams, contains_id, sync_streams}
use rainlogs.Worker.Streams.Sync.Exact.{has_business, sync_streams-exact}
use rainlogs.Examples.Setup.{zone}

-- Zone 4 is of the business plan and new, zone 2 is of another plan and had a stream.
abbrev active_zones : List Zone
active_zones = zone ∷ record zone { id = 4; plan = PlanType.business } ∷ []

abbrev before : Streams
before = record { running = 2 ∷ []; cancelled = []; started = [] }

sync_streams-exact_example :
    (contains_id 4 (sync_streams (some active_zones) before).running ≡ has_business 4 active_zones)
    × (contains_id 4 (sync_streams (some active_zones) before).cancelled
        ≡ (contains_id 4 before.running && not (has_business 4 active_zones)))
    × (contains_id 4 (sync_streams (some active_zones) before).started
        ≡ (has_business 4 active_zones && not (contains_id 4 before.running)))
sync_streams-exact_example = sync_streams-exact active_zones before 4 refl refl

switched :
    sync_streams (some active_zones) before
    ≡ record { running = 4 ∷ []; cancelled = 2 ∷ []; started = 4 ∷ [] }
unfolding sync_streams
switched = refl
