-- ===== src/Api/Erasure/Shut.antt =====
-- What is left open after a customer is erased.
use mathlib.Core.Bool.{true≢false}
use rainlogs.Prelude.{
  ℕ, ◌≡◌, ◌≢◌, refl, ap, sym, subst, ◌∙◌, inl, inr, Bool, true, false, not, ◌&&◌, ◌==◌, ==_iff,
  some, [], ◌∷◌, Bytes, Bool-cases, select_miss, then_case, else_case,
}
use mathlib.Core.List.{Memᴰ}
use mathlib.Core.List.Memᴰ
use rainlogs.Models.{ApiKey, Zone}
use rainlogs.Auth.{Bcrypt}
use rainlogs.Db.ApiKeys
use rainlogs.Db.Zones
use rainlogs.Db.ApiKeys.{is_unrevoked}
use rainlogs.Exec.{World, Env, Exec, ok, db_exec, pure, ignoring, on_error}
use rainlogs.Exec.Steps.{on_ok, exec_runs, written, if_no}
use rainlogs.Api.Access.{pass, api_key_auth}
use rainlogs.Api.Access.Keys.{api_key_auth-Opens}
use rainlogs.Api.Erasure.{
  erase_zones, erase_keys, erase_customer, erase_objects, erase_rows, delete_customer,
}

and_false : (b : Bool) → (b && false) ≡ false
and_false true = refl
and_false false = refl

-- No key in use is the customer's.
abbrev AreShut : ℕ → ApiKeys.Table → Type 0
AreShut customer t = (k : ApiKey) → Memᴰ k t → is_unrevoked k ≡ true → k.customer_id ≢ customer

revoke_by_customer-AreShut :
    (now customer : ℕ) (t : ApiKeys.Table)
    → AreShut customer (ApiKeys.revoke_by_customer now customer t)
unfolding ApiKeys.revoke_by_customer
revoke_by_customer-AreShut now customer [] k m live = absurd (Memᴰ.not-nil m)
revoke_by_customer-AreShut now customer (x ∷ t) k m live = elim (Memᴰ.cases_cons m) [
  | inr later ↦ revoke_by_customer-AreShut now customer t k later live
  | inl same ↦ elim (Bool-cases ((x.customer_id == customer) && is_unrevoked x)) [
    | inl hit ↦
        let shut : record x { revoked_at = some now } ≡ k = then_case _ _ _ hit (sym same) in
        absurd (true≢false (sym live ∙ sym (ap is_unrevoked shut)))
    | inr miss ↦
        let kept : x ≡ k = else_case _ _ _ miss (sym same) in
        λ mine.
          let own = (==_iff x.customer_id customer).1 (ap (λ k. k.customer_id) kept ∙ mine) in
          true≢false (sym (rw own (ap is_unrevoked kept ∙ live)) ∙ miss)
  ]
]

list_by_customer-soft_delete :
    (now customer : ℕ) (t : Zones.Table)
    → Zones.list_by_customer customer (Zones.soft_delete_by_customer now customer t) ≡ []
unfolding Zones.list_by_customer Zones.soft_delete_by_customer
list_by_customer-soft_delete now customer [] = refl
list_by_customer-soft_delete now customer (z ∷ t) =
    let rest = list_by_customer-soft_delete now customer t in
    let p : Zone → Bool = λ z. (z.customer_id == customer) && Zones.is_live z in
    elim (Bool-cases (p z)) [
      | inr miss ↦ rw miss (select_miss p z _ miss ∙ rest)
      | inl hit ↦
          let gone = record z { deleted_at = some now } in
          rw hit (select_miss p gone _ (and_false (z.customer_id == customer)) ∙ rest)
    ]

module _ (env : Env) (customer : ℕ) where
  pub delete_customer-erase_rows :
      (w : World)
      → delete_customer env customer customer w
        ≡ erase_rows env customer (erase_objects env customer w).1
  unfolding delete_customer ignoring
  delete_customer-erase_rows w =
      if_no (not (customer == customer)) (pure 403)
        (ignoring (erase_objects env customer) (erase_rows env customer)) w
        (ap not ((==_iff customer customer).1 refl))

module _ (env : Env) (answers : (n : ℕ) → env.db_fails n ≡ false) (customer : ℕ) where
  erase_rows-runs :
      (w : World)
      → erase_rows env customer w ≡ (
        ok 204,
        written
            (erase_customer env customer)
            (written (erase_keys env customer) (written (erase_zones env customer) w)),
      )
  unfolding erase_rows pure ignoring
  erase_rows-runs w =
      let zones = exec_runs env (erase_zones env customer) w (answers _) in
      let w1 = written (erase_zones env customer) w in
      let keys = exec_runs env (erase_keys env customer) w1 (answers _) in
      let w2 = written (erase_keys env customer) w1 in
      let last = exec_runs env (erase_customer env customer) w2 (answers _) in
      let end : Exec ℕ =
        on_error (db_exec env (erase_customer env customer)) (λ e. pure 500) (λ _. pure 204) in
      ap (λ r. end (db_exec env (erase_keys env customer) r.1).1) zones
      ∙ ap (λ r. end r.1) keys
      ∙ on_ok _ (λ e. pure 500) (λ _. pure 204) w2 last

  -- Where every database call answers, DeleteCustomer answers 204 to the customer's own request, whatever
  -- the providers do, and leaves the customer no zone to list.
  delete_customer-list_by_customer :
      (w : World)
      → ((delete_customer env customer customer w).0 ≡ ok 204)
        × (Zones.list_by_customer customer (delete_customer env customer customer w).1.db.zones
            ≡ [])
  delete_customer-list_by_customer w =
      let w1 = (erase_objects env customer w).1 in
      let e = delete_customer-erase_rows env customer w ∙ erase_rows-runs w1 in
      (
        ap (λ r. r.0) e,
        ap (λ r. Zones.list_by_customer customer r.1.db.zones) e
            ∙ list_by_customer-soft_delete w1.now customer w1.db.zones,
      )

  -- Where every database call answers, after the customer's own DeleteCustomer the middleware lets no
  -- request through for that customer, at whatever time and with whatever header.
  pub delete_customer-api_key_auth :
      (w : World) (bcrypt : Bcrypt) (up : Bool) (now : ℕ) (auth_header : Bytes) (k : ApiKey)
      → api_key_auth bcrypt up now
          (delete_customer env customer customer w).1.db.api_keys
          auth_header
        ≡ pass k
      → k.customer_id ≢ customer
  delete_customer-api_key_auth w bcrypt up now auth_header k opened =
      let w1 = (erase_objects env customer w).1 in
      let e = delete_customer-erase_rows env customer w ∙ erase_rows-runs w1 in
      let o = api_key_auth-Opens bcrypt up now _ auth_header k opened in
      revoke_by_customer-AreShut w1.now customer w1.db.api_keys k
        (subst (λ t. Memᴰ k t) (ap (λ r. r.1.db.api_keys) e) o.is_row) o.is_active
