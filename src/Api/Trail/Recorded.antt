-- ===== src/Api/Trail/Recorded.antt =====
-- What the audit trail keeps, and what it leaves alone.
use rainlogs.Prelude.{
  ℕ, ◌+◌, ◌≡◌, refl, ap, ◌∙◌, ◌⊎◌, inl, inr, Bool, true, false, ◌==◌, Bytes, is_empty, Option, none,
  some, List, [], ◌∷◌, ◌++◌, if◌then◌else◌, codes, select,
}
use rainlogs.Models.{AuditEvent}
use rainlogs.Db.Audit
use rainlogs.Exec.{World, Env, ok, Exec, pure, raise, ignoring, db_exec}
use rainlogs.Exec.Steps.{on_ok, exec_runs, written}
use rainlogs.Db.LogJobs.Frame.{select-append}
use rainlogs.Api.Trail.{
  Handled, Request, HandlerError, http_error, other_error, error_status, first_param,
  audit_resource_id, is_mutating, audit_action, event_of, add_event, audit_log, owner_of,
}

-- The events of a customer, in the order in which they were written.
abbrev pub trail : ℕ → World → List AuditEvent
trail customer w = select (Audit.belongs_to customer) w.db.audit_events

-- The status of the response, or of the error that the handler returns in its place.
abbrev pub replied_status : Handled → ℕ
replied_status h = elim h.error [
  | none ↦ h.status
  | some e ↦ elim e [ http_error code ↦ code | other_error ↦ 500 ]
]

status_cases :
    (status : ℕ) (e : Option HandlerError)
    → error_status status e
      ≡ (elim e [ none ↦ status | some e ↦ elim e [ http_error code ↦ code | other_error ↦ 500 ] ])
status_cases status none = refl
status_cases status (some (http_error code)) = refl
status_cases status (some other_error) = refl

replied_status_lem : (h : Handled) → error_status h.status h.error ≡ replied_status h
replied_status_lem h = status_cases h.status h.error

-- The methods of the requests that change something.
abbrev pub IsChange : Bytes → Type 0
IsChange m = (m ≡ codes "POST") ⊎ (m ≡ codes "PATCH") ⊎ (m ≡ codes "DELETE")

IsChange-is_mutating : (m : Bytes) → IsChange m → is_mutating m ≡ true
IsChange-is_mutating m (inl e) = rw e refl
IsChange-is_mutating m (inr (inl e)) = rw e refl
IsChange-is_mutating m (inr (inr e)) = rw e refl

-- The names of the actions under one of the two prefixes of the routes.
abbrev pub HasNames : Bytes → Type 0
HasNames page =
    (audit_action (codes "POST") (page ++ codes "/zones") ≡ codes "ZONE_CREATE")
    × (audit_action (codes "PATCH") (page ++ codes "/zones/:zone_id") ≡ codes "ZONE_UPDATE")
    × (audit_action (codes "DELETE") (page ++ codes "/zones/:zone_id") ≡ codes "ZONE_DELETE")
    × (audit_action (codes "POST") (page ++ codes "/zones/:zone_id/pull") ≡ codes "ZONE_PULL")
    × (audit_action (codes "DELETE") (page ++ codes "/customers/:id") ≡ codes "CUSTOMER_ERASE")
    × (audit_action (codes "POST") (page ++ codes "/api-keys") ≡ codes "APIKEY_CREATE")
    × (audit_action (codes "DELETE") (page ++ codes "/api-keys/:key_id") ≡ codes "APIKEY_REVOKE")

api_names : HasNames (codes "/api/v1")
unfolding audit_action
api_names = (refl, refl, refl, refl, refl, refl, refl)

dashboard_names : HasNames (codes "/dashboard")
unfolding audit_action
dashboard_names = (refl, refl, refl, refl, refl, refl, refl)

module _ (env : Env) (new_id customer : ℕ) (req : Request) (next : Exec Handled) (h : Handled)
    (w w' : World) where
  audit_log_mutating :
      is_mutating req.method ≡ true
      → next w ≡ (ok h, w')
      → audit_log env new_id req next w
        ≡ (ok h, (db_exec env (add_event (event_of new_id req h)) w').1)
  unfolding audit_log ignoring pure
  audit_log_mutating changes handled = rw changes (
      on_ok next raise (λ h. ignoring (db_exec env (add_event (event_of new_id req h))) (pure h)) w
        handled)

  -- The parameter of the route of that name, and where it is empty the other text.
  abbrev pub param_or : Bytes → Bytes → Bytes
  param_or name other = if is_empty (req.param name) then other else req.param name

  -- The event that the trail is to get.
  abbrev pub event : AuditEvent
  event = record {
    id = new_id;
    customer_id = some customer;
    request_id = req.request_id;
    action = audit_action req.method req.path;
    resource_id =
        param_or (codes "zone_id")
          (param_or (codes "id") (param_or (codes "key_id") (param_or (codes "job_id") [])));
    ip_address = req.real_ip;
    status_code = replied_status h;
    error_detail = [];
    created_at = w'.now;
  }

  event_lem :
      req.customer_id ≡ some customer
      → (customer == 0) ≡ false
      → record (event_of new_id req h) { created_at = w'.now } ≡ event
  unfolding audit_resource_id first_param
  event_lem known real =
      let owner : owner_of req.customer_id ≡ some customer = ap owner_of known ∙ rw real refl in
      ap (λ o. record (event_of new_id req h) { created_at = w'.now; customer_id = o }) owner
      ∙ ap (λ s. record event { status_code = s }) (replied_status_lem h)

  abbrev recorded : World
  recorded = written (add_event (event_of new_id req h)) w'

  abbrev pub its_events : ℕ → List AuditEvent
  its_events other = if customer == other then event ∷ [] else []

  select_one :
      (p : AuditEvent → Bool) (b : Bool)
      → p event ≡ b
      → select p (event ∷ []) ≡ (if b then event ∷ [] else [])
  select_one p b e = rw e refl

  trail-recorded :
      req.customer_id ≡ some customer
      → (customer == 0) ≡ false
      → (other : ℕ) → trail other recorded ≡ trail other w' ++ its_events other
  unfolding Audit.create
  trail-recorded known real other =
      ap (λ e. select (Audit.belongs_to other) (w'.db.audit_events ++ e ∷ []))
        (event_lem known real)
      ∙ select-append (Audit.belongs_to other) w'.db.audit_events (event ∷ [])
      ∙ ap (λ es. trail other w' ++ es)
          (select_one (Audit.belongs_to other) (customer == other) refl)

  -- Where the handler of a POST, PATCH or DELETE request has come to an end, and the database takes the
  -- event, the reply is the handler's, refused or not; the trail of the request's customer has one event
  -- more at its end: it names the customer, the request, the address, the first non-empty one of the
  -- parameters zone_id, id, key_id and job_id, the status of the response or of the handler's error (500
  -- where that has none), and the action; and all other trails, tables and stored objects are as the
  -- handler left them. The seven routes have the names of their actions under both prefixes.
  pub audit_log-trail :
      IsChange req.method
      → next w ≡ (ok h, w')
      → env.db_fails w'.db_calls ≡ false
      → req.customer_id ≡ some customer
      → (customer == 0) ≡ false
      → (w'' : World) × (audit_log env new_id req next w ≡ (ok h, w''))
        × ((other : ℕ) → trail other w'' ≡ trail other w' ++ its_events other)
        × (w'' ≡ record w' {
          db = record w'.db { audit_events = w''.db.audit_events };
          db_calls = w'.db_calls + 1;
        })
        × HasNames (codes "/api/v1")
        × HasNames (codes "/dashboard")
  audit_log-trail changes handled runs known real = (
    recorded,
    audit_log_mutating (IsChange-is_mutating req.method changes) handled
        ∙ ap (λ s. (ok h, s.1)) (exec_runs env (add_event (event_of new_id req h)) w' runs),
    trail-recorded known real,
    refl,
    api_names,
    dashboard_names,
  )
