-- ===== src/Api/KeyRequests/Revocation.antt =====
-- What a revoked key opens.
use mathlib.Core.Bool.{true≢false}
use mathlib.Core.List.{Memᴰ}
use mathlib.Core.List.Memᴰ
use rainlogs.Prelude.{
  then_case, else_case, ℕ, ◌≡◌, ◌≢◌, ap, subst, sym, ◌∙◌, inl, inr, arith, Bool, true, ◌==◌, ==_iff,
  Option, some, [], ◌∷◌, Bytes, Bool-cases, Option-cases,
}
use rainlogs.Models.{ApiKey}
use rainlogs.Auth.{Bcrypt}
use rainlogs.Db.ApiKeys
use rainlogs.Db.ApiKeys.{is_unrevoked}
use rainlogs.GoError.{GoError}
use rainlogs.Exec.{World, Env, Db, Exec, Outcome, ok, err, pure, on_error, db_exec}
use rainlogs.Exec.Steps.{
  on_ok, on_err, exec_fails, exec_runs, row_found, row_missing, row_fails, counted,
}
use rainlogs.Api.Access.{pass, api_key_auth}
use rainlogs.Api.Access.Keys.{api_key_auth-Opens}
use rainlogs.Api.KeyRequests.{Reply, status, revoke_api_key, shut_key}

revoke-live :
    (now id : ℕ) (t : ApiKeys.Table) (k : ApiKey)
    → Memᴰ k (ApiKeys.revoke now id t)
    → is_unrevoked k ≡ true
    → k.id ≢ id
unfolding ApiKeys.revoke
revoke-live now id [] k m live = absurd (Memᴰ.not-nil m)
revoke-live now id (x ∷ t) k m live = elim (Memᴰ.cases_cons m) [
  | inr later ↦ revoke-live now id t k later live
  | inl same ↦ elim (Bool-cases (x.id == id)) [
    | inl hit ↦
        let shut : record x { revoked_at = some now } ≡ k = then_case _ _ _ hit (sym same) in
        absurd (true≢false (sym live ∙ sym (ap is_unrevoked shut)))
    | inr miss ↦
        let kept : x ≡ k = else_case _ _ _ miss (sym same) in
        λ e. true≢false (sym ((==_iff x.id id).1 (ap (λ k. k.id) kept ∙ e)) ∙ miss)
  ]
]

abbrev code : Outcome Reply → ℕ
code (ok (status n)) = n
code (ok _) = 0
code (err e) = 0

other_code :
    (n : ℕ)
    → n ≢ 204
    → {a b : World} {r : Outcome Reply × World} → r ≡ (ok (status n), a)
    → r ≡ (ok (status 204), b)
    → ⊥
other_code n d e h = d (ap (λ r. code r.0) (sym e ∙ h))

module _ (env : Env) (customer id : ℕ) where
  revoke_api_key-shut_key :
      (w w' : World)
      → revoke_api_key env customer id w ≡ (ok (status 204), w')
      → w'.db.api_keys ≡ ApiKeys.revoke w.now id w.db.api_keys
  unfolding revoke_api_key pure
  revoke_api_key-shut_key w w' h =
      let q : Db → ℕ → Option ApiKey =
        λ d _. ApiKeys.get_by_customer_and_id customer id d.api_keys in
      let refuse : GoError → Exec Reply = λ e. pure (status 404) in
      let fail : GoError → Exec Reply = λ e. pure (status 500) in
      let done : Unit {0} → Exec Reply = λ _. pure (status 204) in
      let shut : ApiKey → Exec Reply =
        λ _. on_error (db_exec env (shut_key env customer id)) fail done in
      elim (Bool-cases (env.db_fails w.db_calls)) [
        | inl fails ↦
            absurd
              (other_code 404 (omega arith) (on_err _ refuse shut w (row_fails env q w fails)) h)
        | inr runs ↦ elim (Option-cases (q w.db w.now)) [
          | inl missing ↦ absurd (
              other_code 404 (omega arith)
                (on_err _ refuse shut w (row_missing env q w runs missing)) h)
          | inr (k, found) ↦
              let next = on_ok _ refuse shut w (row_found env q w runs found) in
              let f = shut_key env customer id in
              elim (Bool-cases (env.db_fails (counted w).db_calls)) [
                | inl fails ↦ absurd (
                    other_code 500 (omega arith)
                      (next ∙ on_err _ fail done (counted w) (exec_fails env f (counted w) fails))
                      h)
                | inr runs' ↦
                    let e =
                      next ∙ on_ok _ fail done (counted w) (exec_runs env f (counted w) runs') in
                    ap (λ r. r.1.db.api_keys) (sym h ∙ e)
              ]
        ]
      ]

  -- Once RevokeAPIKey has answered 204, the middleware lets no request through for that key, at
  -- whatever time and with whatever header.
  pub revoke_api_key-api_key_auth :
      (w w' : World) (bcrypt : Bcrypt) (answers : Bool) (now : ℕ) (auth_header : Bytes) (k : ApiKey)
      → revoke_api_key env customer id w ≡ (ok (status 204), w')
      → api_key_auth bcrypt answers now w'.db.api_keys auth_header ≡ pass k
      → k.id ≢ id
  revoke_api_key-api_key_auth w w' bcrypt answers now auth_header k h opened =
      let o = api_key_auth-Opens bcrypt answers now w'.db.api_keys auth_header k opened in
      revoke-live w.now id w.db.api_keys k
        (subst (λ t. Memᴰ k t) (revoke_api_key-shut_key w w' h) o.is_row) o.is_active
