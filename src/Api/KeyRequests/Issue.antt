-- ===== src/Api/KeyRequests/Issue.antt =====
-- What an issued key opens.
use rainlogs.Prelude.{
  subst, ◌⊎◌, inl, inr, Bool-cases, ◌+◌, ◌*◌, ℕ, ◌≡◌, refl, ap, sym, ◌∙◌, arith, Bool, true, false,
  ◌&&◌, none, some, [], ◌∷◌, ◌++◌, Bytes, bytes_eq, bytes_eq_iff, is_empty, length, ltb, codes,
  select, select_hit, if◌then◌else◌, ℤ, pos_part, ltb_ℤ, pos,
}
use rainlogs.Models.{ApiKey, UserRole}
use rainlogs.Calendar.{day}
use rainlogs.Auth
use rainlogs.Auth.{Bcrypt, GeneratedKey, generate_api_key, token_bytes}
use rainlogs.Auth.Keys.{generate_api_key_lem}
use rainlogs.Db.ApiKeys
use rainlogs.Db.ApiKeys.{is_unrevoked}
use rainlogs.Db.LogJobs.Frame.{select-append}
use rainlogs.Exec.{World, Env, ok, pure, on_error, db_exec, time_now}
use rainlogs.Exec.Steps.{on_ok, exec_runs, written}
use rainlogs.Api.Access.{pass, api_key_auth, has_expired}
use rainlogs.Api.Access.Keys.{api_key_auth-pass}
use rainlogs.Api.KeyRequests.{
  status, new_key, CreateApiKeyRequest, is_known_role, role_or_default, expiry, key_of, insert_key,
  save_key, create_api_key,
}

expiry_cases :
    (days : ℤ) (now : ℕ)
    → (expiry days now ≡ none) ⊎ (t : ℕ) × (expiry days now ≡ some t) × (ltb t now ≡ false)
expiry_cases days now = elim (Bool-cases (ltb_ℤ (pos 0) days)) [
  | inl ends ↦ inr (now + pos_part days * day, rw ends refl, ground arith)
  | inr never ↦ inl (rw never refl)
]

expiry-has_expired :
    (days : ℤ) (now : ℕ) (k : ApiKey) → k.expires_at ≡ expiry days now → has_expired now k ≡ false
expiry-has_expired days now k e = elim (expiry_cases days now) [
  | inl never ↦ rw (e, never) refl
  | inr (t, ends, later) ↦ rw (e, ends) later
]

role_or_default_again :
    (r : UserRole) → ApiKeys.default_role (role_or_default r) ≡ role_or_default r
role_or_default_again UserRole.unset = refl
role_or_default_again UserRole.admin = refl
role_or_default_again UserRole.viewer = refl
role_or_default_again (UserRole.other r) = refl

role_lem :
    (r : UserRole)
    → role_or_default r ≡ (elim r [ UserRole.unset ↦ UserRole.admin | asked ↦ asked ])
role_lem UserRole.unset = refl
role_lem UserRole.admin = refl
role_lem UserRole.viewer = refl
role_lem (UserRole.other r) = refl

module _ (env : Env) (customer new_id : ℕ) (req : CreateApiKeyRequest) where
  -- The row of a key that is issued for the customer at the time `now`: its role is the requested one,
  -- and admin where none is requested; it ends after that many days where their number is positive.
  abbrev pub issued : GeneratedKey → ℕ → ApiKey
  issued made now = record {
    id = new_id;
    customer_id = customer;
    prefix = made.prefix;
    key_hash = made.hash;
    label = req.label;
    role = elim req.role [ UserRole.unset ↦ UserRole.admin | asked ↦ asked ];
    created_at = now;
    last_used_at = none;
    revoked_at = none;
    expires_at =
        if ltb_ℤ (pos 0) req.expires_in_days
        then some (now + pos_part req.expires_in_days * day)
        else none;
  }

  issued_lem :
      (made : GeneratedKey) (now : ℕ) → key_of env customer new_id req made now ≡ issued made now
  issued_lem made now = ap (λ r. record (issued made now) { role = r }) (role_lem req.role)

  create-key_of :
      (now : ℕ) (made : GeneratedKey) (t : ApiKeys.Table)
      → ApiKeys.create now (key_of env customer new_id req made now) t
        ≡ t ++ key_of env customer new_id req made now ∷ []
  unfolding ApiKeys.create
  create-key_of now made t =
      ap (λ r. t ++ record (key_of env customer new_id req made now) { role = r } ∷ [])
        (role_or_default_again req.role)

  get_by_prefix-create :
      (now : ℕ) (made : GeneratedKey) (t : ApiKeys.Table)
      → ApiKeys.get_by_prefix made.prefix t ≡ []
      → ApiKeys.get_by_prefix made.prefix
          (ApiKeys.create now (key_of env customer new_id req made now) t)
        ≡ key_of env customer new_id req made now ∷ []
  unfolding ApiKeys.get_by_prefix
  get_by_prefix-create now made t none_yet =
      let k = key_of env customer new_id req made now in
      let p : ApiKey → Bool = λ k. bytes_eq k.prefix made.prefix && is_unrevoked k in
      ap (select p) (create-key_of now made t)
      ∙ select-append p t (k ∷ [])
      ∙ ap (λ r. r ++ select p (k ∷ [])) none_yet
      ∙ select_hit p k [] (rw ((bytes_eq_iff made.prefix made.prefix).1 refl) refl)

  -- From 32 random bytes, a label, a role that is known and a database that answers, CreateAPIKey saves
  -- the key and shows it; where no other live key has its prefix, the middleware at once lets a request
  -- with the shown text through, for that customer, in that role (admin where none was asked for), under a
  -- key that expires after that many days (never where their number is not positive).
  pub create_api_key-api_key_auth :
      (bcrypt : Bcrypt) (b : Bytes) (made : GeneratedKey) (w : World)
      → length b ≡ token_bytes
      → generate_api_key bcrypt (some b) ≡ Auth.ok made
      → is_empty req.label ≡ false
      → is_known_role req.role ≡ true
      → env.db_fails w.db_calls ≡ false
      → ApiKeys.get_by_prefix made.prefix w.db.api_keys ≡ []
      → (w' : World) × (create_api_key env customer bcrypt (some b) new_id (some req) w
          ≡ (ok (new_key (issued made w.now) made.plaintext), w'))
        × (api_key_auth bcrypt true w'.now w'.db.api_keys (codes "Bearer " ++ made.plaintext)
            ≡ pass (issued made w.now))
  unfolding create_api_key save_key pure time_now on_error
  create_api_key-api_key_auth bcrypt b made w wide makes labelled known runs none_yet =
      let k = key_of env customer new_id req made w.now in
      let (made', makes', long, cut, _, valid) = generate_api_key_lem bcrypt b wide in
      let same : made' ≡ made = cc (makes', makes) in
      let f = insert_key env customer k in
      let saves =
        on_ok (db_exec env f) (λ e. pure (status 500)) (λ _. pure (new_key k made.plaintext)) w
          (exec_runs env f w runs) in
      let short : ltb 256 (length made.plaintext) ≡ false =
        ap (λ n. ltb 256 n) (sym (ap (λ m. length m.plaintext) same) ∙ long) in
      (
        written f w,
        rw (labelled, known, makes) saves
            ∙ ap (λ x. (ok (new_key x made.plaintext), written f w)) (issued_lem made w.now),
        api_key_auth-pass bcrypt w.now (written f w).db.api_keys [] made.plaintext made.prefix k
              short (subst (λ m. Auth.prefix_of m.plaintext ≡ Auth.ok m.prefix) same cut)
              (get_by_prefix-create w.now made w.db.api_keys none_yet)
              (subst (λ m. Auth.validate_api_key bcrypt m.plaintext m.hash ≡ true) same valid)
              (expiry-has_expired req.expires_in_days w.now k refl)
            ∙ ap pass (issued_lem made w.now),
      )
