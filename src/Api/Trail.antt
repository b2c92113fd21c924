-- ===== src/Api/Trail.antt =====
-- AuditLog, auditAction and auditResourceID of internal/api/middleware/middleware.go.
--
-- The handler is a computation whose result is the status of the response and the error that it returns,
-- if any. The event is written in the background; here that is right after the handler. The identifier 0
-- is uuid.Nil.
pub mod Recorded
use rainlogs.Prelude.{
  ℕ, Bool, true, false, not, ◌||◌, ◌==◌, Option, none, some, List, [], ◌∷◌, ◌++◌, if◌then◌else◌,
  is_empty, length, drop, Bytes, bytes_eq, codes, has_prefix,
}
use rainlogs.Models.{AuditEvent}
use rainlogs.Db.Audit
use rainlogs.Exec.{Env, Db, Exec, pure, raise, on_error, ignoring, db_exec}

pub data HandlerError : Type 0 where
  http_error : (code : ℕ) → HandlerError
  other_error : HandlerError

pub record Handled : Type 0 where
  pub status : ℕ
  pub error : Option HandlerError

-- What the middleware reads of a request and its context. `param` is the value of a parameter of the
-- route, empty where the route has none of that name.
pub record Request : Type 0 where
  pub method : Bytes
  pub path : Bytes
  pub param : Bytes → Bytes
  pub customer_id : Option ℕ
  pub request_id : Bytes
  pub real_ip : Bytes

abbrev pub is_mutating : Bytes → Bool
is_mutating m =
    bytes_eq m (codes "POST") || bytes_eq m (codes "PATCH") || bytes_eq m (codes "DELETE")

abbrev pub error_status : ℕ → Option HandlerError → ℕ
error_status status none = status
error_status status (some (http_error code)) = code
error_status status (some other_error) = 500

abbrev pub owner_of : Option ℕ → Option ℕ
owner_of none = none
owner_of (some id) = if id == 0 then none else some id

unfoldable pub without_prefix : List Bytes → Bytes → Bytes
without_prefix [] p = p
without_prefix (pfx ∷ more) p =
    if has_prefix pfx p then drop (length pfx) p else without_prefix more p

abbrev pub action_names : List (Bytes × Bytes)
action_names =
    (codes "POST /zones", codes "ZONE_CREATE")
    ∷ (codes "DELETE /zones/:zone_id", codes "ZONE_DELETE")
    ∷ (codes "PATCH /zones/:zone_id", codes "ZONE_UPDATE")
    ∷ (codes "POST /zones/:zone_id/pull", codes "ZONE_PULL")
    ∷ (codes "DELETE /customers/:id", codes "CUSTOMER_ERASE")
    ∷ (codes "POST /api-keys", codes "APIKEY_CREATE")
    ∷ (codes "DELETE /api-keys/:key_id", codes "APIKEY_REVOKE")
    ∷ []

unfoldable pub name_of : List (Bytes × Bytes) → Bytes → Bytes
name_of [] route = route
name_of ((r, name) ∷ names) route = if bytes_eq r route then name else name_of names route

-- auditAction
unfoldable pub audit_action : (method path : Bytes) → Bytes
unfolding without_prefix name_of
audit_action method path =
    let p = without_prefix (codes "/api/v1" ∷ codes "/dashboard" ∷ []) path in
    name_of action_names (method ++ (codes " " ++ p))

unfoldable pub first_param : (Bytes → Bytes) → List Bytes → Bytes
first_param param [] = []
first_param param (name ∷ names) =
    let rest = first_param param names in if is_empty (param name) then rest else param name

-- auditResourceID
unfoldable pub audit_resource_id : (Bytes → Bytes) → Bytes
unfolding first_param
audit_resource_id param =
    first_param param (codes "zone_id" ∷ codes "id" ∷ codes "key_id" ∷ codes "job_id" ∷ [])

abbrev pub event_of : ℕ → Request → Handled → AuditEvent
event_of new_id req h = record {
  id = new_id;
  customer_id = owner_of req.customer_id;
  request_id = req.request_id;
  action = audit_action req.method req.path;
  resource_id = audit_resource_id req.param;
  ip_address = req.real_ip;
  status_code = error_status h.status h.error;
  error_detail = [];
  created_at = 0;
}

abbrev pub add_event : AuditEvent → Db → ℕ → Db
add_event e d now = record d { audit_events = Audit.create now e d.audit_events }

-- AuditLog
unfoldable pub audit_log : Env → ℕ → Request → Exec Handled → Exec Handled
audit_log env new_id req next =
    if not (is_mutating req.method)
    then next
    else on_error next raise
        (λ h. ignoring (db_exec env (add_event (event_of new_id req h))) (pure h))
