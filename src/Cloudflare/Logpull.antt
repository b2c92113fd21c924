-- ===== src/Cloudflare/Logpull.antt =====
-- internal/cloudflare/client.go: the Logpull client. Building the URL from the zone's identifier,
-- sending the request and the service's answer are the function `Service`.
use rainlogs.Prelude.{
  ℕ, ◌-◌, take, Bool, Option, none, some, [], ◌++◌, ltb, ◌==◌, if◌then◌else◌, not, Bytes, codes, ℤ,
  pos,
}
use rainlogs.Calendar.{minute, hour, decimal}
use rainlogs.Strconv.{atoi, seconds}
use rainlogs.GoError.{text, rate_limit_error}
use rainlogs.Exec.{Outcome, ok, err}

pub record Request : Type 0 where
  pub zone_id : Bytes
  pub api_key : Bytes
  pub start : ℕ
  pub end_ : ℕ

-- `none` as a body: reading it breaks off.
pub record Response : Type 0 where
  pub status : ℕ
  pub retry_after : Bytes
  pub gzipped : Bool
  pub body : Option Bytes

pub data Reply : Type 0 where
  failed : Bytes → Reply
  response : Response → Reply

abbrev pub Service : Type 0
Service = Request → Reply

retry_delay : Option ℤ → ℤ
retry_delay none = seconds (pos 30)
retry_delay (some v) = seconds v

body_or_empty : Option Bytes → Bytes
body_or_empty none = []
body_or_empty (some b) = b

unzipped : (Bytes → Option Bytes) → Bytes → Outcome Bytes
unzipped gunzip b = elim (gunzip b) [
  | none ↦ err (text (codes "cloudflare: gzip"))
  | some raw ↦ ok raw
]

-- io.ReadAll over the body or over a gzip reader of it.
read_body : (Bytes → Option Bytes) → Response → Outcome Bytes
unfolding unzipped
read_body gunzip r = elim r.body [
  | none ↦ err (text (codes "cloudflare: read body"))
  | some b ↦ if r.gzipped then unzipped gunzip b else ok b
]

unfoldable pub read_response : (Bytes → Option Bytes) → Response → Outcome Bytes
unfolding retry_delay body_or_empty read_body
read_response gunzip r =
    if r.status == 429
    then err (rate_limit_error (retry_delay (atoi r.retry_after)))
    else if not (r.status == 200)
    then err (
        text (
          codes "cloudflare: "
          ++ ((codes "HTTP " ++ decimal r.status)
              ++ (codes ": " ++ take 4096 (body_or_empty r.body)))))
    else read_body gunzip r

read_reply : (Bytes → Option Bytes) → Reply → Outcome Bytes
read_reply gunzip (failed why) = err (text why)
read_reply gunzip (response r) = read_response gunzip r

-- PullLogs at the time `now`.
unfoldable pub pull_logs :
    (Bytes → Option Bytes) → Service → Bytes → Bytes → ℕ → ℕ → ℕ → Outcome Bytes
unfolding read_reply
pull_logs gunzip service zone_id api_key from to now =
    if ltb hour (to - from)
    then err (text (codes "cloudflare: window exceeds 1 hour"))
    else if ltb (now - to) minute
    then err (text (codes "cloudflare: logs not yet available (min 1-min delay)"))
    else read_reply gunzip
        (service (record { zone_id = zone_id; api_key = api_key; start = from; end_ = to }))
