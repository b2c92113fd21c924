-- ===== src/Worker/Streams/Sync.antt =====
-- syncStreams of internal/worker/instant_logs.go: which zones have a stream.
--
-- The map of the cancel functions is the list of its keys, in any order, with a record of which streams
-- were cancelled and started. The key is the zone's identifier.
pub mod Exact
use rainlogs.Prelude.{
  ℕ, Bool, true, false, ◌||◌, ◌==◌, Option, none, some, List, [], ◌∷◌, ◌++◌, if◌then◌else◌,
}
use rainlogs.Models.{Zone, PlanType}

abbrev pub contains_id : ℕ → List ℕ → Bool
contains_id id [] = false
contains_id id (x ∷ xs) = (x == id) || contains_id id xs

abbrev pub is_business : PlanType → Bool
is_business PlanType.business = true
is_business _ = false

unfoldable pub business_zones : List Zone → List ℕ
business_zones [] = []
business_zones (z ∷ zones) =
    let rest = business_zones zones in if is_business z.plan then z.id ∷ rest else rest

pub record Streams : Type 0 where
  pub running : List ℕ
  pub cancelled : List ℕ
  pub started : List ℕ

-- Step 1, over the keys of the map.
unfoldable pub remove_stopped : (wanted keys : List ℕ) → Streams → Streams
remove_stopped wanted [] s = s
remove_stopped wanted (id ∷ keys) s =
    let rest = remove_stopped wanted keys s in
    if contains_id id wanted
    then record rest { running = id ∷ rest.running }
    else record rest { cancelled = id ∷ rest.cancelled }

-- Step 2.
unfoldable pub start_new : (wanted : List ℕ) → Streams → Streams
start_new [] s = s
start_new (id ∷ wanted) s =
    let kept = start_new wanted s in
    let added =
      start_new wanted
        (record s { running = s.running ++ id ∷ []; started = s.started ++ id ∷ [] }) in
    if contains_id id s.running then kept else added

-- syncStreams, from what the query of the active zones answers.
unfoldable pub sync_streams : Option (List Zone) → Streams → Streams
unfolding business_zones remove_stopped start_new
sync_streams none s = s
sync_streams (some zones) s =
    let wanted = business_zones zones in
    start_new wanted (remove_stopped wanted s.running (record s { running = [] }))
