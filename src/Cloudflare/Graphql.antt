-- ===== src/Cloudflare/Graphql.antt =====
-- internal/cloudflare/graphql.go: the client for security events. Sending the query and decoding
-- the answer are the function `Service`; an event is the JSON line that the worker writes of it,
-- or `none` where json.Marshal fails.
use rainlogs.Prelude.{
  ℕ, take, Option, none, some, List, [], ◌∷◌, ◌++◌, not, ◌==◌, if◌then◌else◌, Bytes, codes,
}
use rainlogs.GoError.{text}
use rainlogs.Exec.{Outcome, ok, err}

abbrev pub Event : Type 0
Event = Option Bytes

-- graphQLResponse: the events of each zone, and the messages of the errors.
pub record Result : Type 0 where
  pub zones : List (List Event)
  pub errors : List Bytes

-- `none` as a result: the body is no JSON of that form.
pub data Reply : Type 0 where
  failed : Bytes → Reply
  response : (status : ℕ) (body : Bytes) (result : Option Result) → Reply

abbrev pub Service : Type 0
Service = Bytes → Bytes → ℕ → ℕ → Reply

first_zone : List (List Event) → List Event
first_zone [] = []
first_zone (events ∷ _) = events

no_errors : List Bytes → List (List Event) → Outcome (List Event)
no_errors [] zones = ok (first_zone zones)
no_errors (message ∷ _) zones = err (text (codes "graphql error: " ++ message))

decoded : Option Result → Outcome (List Event)
decoded none = err (text (codes "decode response"))
decoded (some r) = no_errors r.errors r.zones

read_reply : Reply → Outcome (List Event)
read_reply (failed why) = err (text why)
read_reply (response status body result) =
    if not (status == 200)
    then err (text (codes "graphql api error: " ++ take 1024 body))
    else decoded result

-- GetSecurityEvents
unfoldable pub get_security_events : Service → Bytes → Bytes → ℕ → ℕ → Outcome (List Event)
unfolding read_reply decoded no_errors first_zone
get_security_events service api_token zone_id start end_ =
    read_reply (service api_token zone_id start end_)
