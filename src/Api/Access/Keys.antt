-- ===== src/Api/Access/Keys.antt =====
-- Which API keys open the API, and for whom.
use mathlib.Core.List.{Memᴰ}
use mathlib.Core.List.Memᴰ
use rainlogs.Prelude.{
  ℕ, ◌≡◌, refl, ap, subst, sym, ◌∙◌, inl, inr, Bool, true, false, not, ◌&&◌, then_case, else_case,
  Option, none, some, List, [], ◌∷◌, ◌++◌, ltb, length, if◌then◌else◌, find_first, find_first_hit,
  find_first_miss, select, select_hit, select_miss, is_empty, Bytes, codes, bytes_eq, bytes_eq_iff,
  Bool-cases,
}
use rainlogs.Models.{ApiKey}
use rainlogs.Auth
use rainlogs.Auth.{Bcrypt, validate_api_key, prefix_of}
use rainlogs.Db.ApiKeys
use rainlogs.Db.ApiKeys.{is_unrevoked}
use rainlogs.Api.Access.{
  Decision, reject, pass, cut_at_space, equal_fold, has_expired, admit, valid_key, look_up,
  check_parts, api_key_auth,
}

find_first-Memᴰ :
    (p : ApiKey → Bool) (xs : List ApiKey) (k : ApiKey)
    → find_first p xs ≡ some k
    → Memᴰ k xs × (p k ≡ true)
find_first-Memᴰ p [] k h = cc
find_first-Memᴰ p (x ∷ xs) k h = elim (Bool-cases (p x)) [
  | inl hit ↦
      let same : x ≡ k = cc (h, find_first_hit p x xs hit) in
      (Memᴰ.head (sym same), ap p (sym same) ∙ hit)
  | inr miss ↦
      let (there, holds) = find_first-Memᴰ p xs k (sym (find_first_miss p x xs miss) ∙ h) in
      (Memᴰ.tail there, holds)
]

select-Memᴰ :
    (p : ApiKey → Bool) (xs : List ApiKey) (k : ApiKey)
    → Memᴰ k (select p xs)
    → Memᴰ k xs × (p k ≡ true)
select-Memᴰ p [] k m = absurd (Memᴰ.not-nil m)
select-Memᴰ p (x ∷ xs) k m = elim (Bool-cases (p x)) [
  | inl hit ↦ elim (Memᴰ.cases_cons (subst (λ l. Memᴰ k l) (select_hit p x xs hit) m)) [
    | inl same ↦ (Memᴰ.head same, ap p same ∙ hit)
    | inr later ↦ let (there, holds) = select-Memᴰ p xs k later in (Memᴰ.tail there, holds)
  ]
  | inr miss ↦
      let (there, holds) = select-Memᴰ p xs k (subst (λ l. Memᴰ k l) (select_miss p x xs miss) m) in
      (Memᴰ.tail there, holds)
]

-- The header is a bearer token with a key that this row's hash accepts, and the row may be used.
pub record Opens (bcrypt : Bcrypt) (now : ℕ) (t : ApiKeys.Table) (auth_header : Bytes) (k : ApiKey)
    : Type 0 where
  pub scheme : Bytes
  pub api_key : Bytes
  pub cut : cut_at_space [] auth_header ≡ some (scheme, api_key)
  pub is_bearer : equal_fold scheme (codes "bearer") ≡ true
  pub is_short : ltb 256 (length api_key) ≡ false
  pub has_prefix : prefix_of api_key ≡ Auth.ok k.prefix
  pub is_row : Memᴰ k t
  pub is_active : is_unrevoked k ≡ true
  pub in_time : has_expired now k ≡ false
  pub validates : validate_api_key bcrypt api_key k.key_hash ≡ true

pass-reject : (k : ApiKey) (status : ℕ) (message : Bytes) → reject status message ≡ pass k → ⊥
pass-reject k status message e = cc

and_parts : (a b : Bool) → (a && b) ≡ true → (a ≡ true) × (b ≡ true)
and_parts true b h = (refl, h)
and_parts false b h = cc

admit-pass :
    (now : ℕ) (o : Option ApiKey) (k : ApiKey)
    → admit now o ≡ pass k
    → (o ≡ some k) × (has_expired now k ≡ false)
unfolding admit
admit-pass now none k h = cc
admit-pass now (some j) k h = elim (Bool-cases (has_expired now j)) [
  | inl old ↦ absurd (pass-reject k _ _ (then_case _ _ _ old h))
  | inr good ↦
      let same : j ≡ k = cc (else_case _ _ _ good h) in
      (ap some same, ap (has_expired now) (sym same) ∙ good)
]

module _ (bcrypt : Bcrypt) (answers : Bool) (now : ℕ) (t : ApiKeys.Table)
    (auth_header : Bytes) where
  look_up-Opens :
      (scheme api_key : Bytes) (k : ApiKey)
      → cut_at_space [] auth_header ≡ some (scheme, api_key)
      → equal_fold scheme (codes "bearer") ≡ true
      → ltb 256 (length api_key) ≡ false
      → (r : Auth.Result Bytes) → prefix_of api_key ≡ r
      → look_up bcrypt answers now t api_key r ≡ pass k
      → Opens bcrypt now t auth_header k
  unfolding look_up valid_key ApiKeys.get_by_prefix
  look_up-Opens scheme api_key k cut bearer short (Auth.err e) p h = cc
  look_up-Opens scheme api_key k cut bearer short (Auth.ok prefix) p h = elim (Bool-cases answers) [
    | inl up ↦
        let (found, fresh) =
          admit-pass now (valid_key bcrypt answers now t api_key prefix) k (then_case _ _ _ up h) in
        let (listed, valid) =
          find_first-Memᴰ (λ k. validate_api_key bcrypt api_key k.key_hash)
            (ApiKeys.get_by_prefix prefix t) k found in
        let (row, tests) =
          select-Memᴰ (λ k. bytes_eq k.prefix prefix && is_unrevoked k) t k listed in
        let (same, active) = and_parts _ _ tests in
        record {
          scheme = scheme;
          api_key = api_key;
          cut = cut;
          is_bearer = bearer;
          is_short = short;
          has_prefix = p ∙ ap Auth.ok (sym ((bytes_eq_iff k.prefix prefix).0 same));
          is_row = row;
          is_active = active;
          in_time = fresh;
          validates = valid;
        }
    | inr down ↦ absurd (pass-reject k _ _ (else_case _ _ _ down h))
  ]

  check_parts-Opens :
      (o : Option (Bytes × Bytes)) (k : ApiKey)
      → cut_at_space [] auth_header ≡ o
      → check_parts bcrypt answers now t o ≡ pass k
      → Opens bcrypt now t auth_header k
  unfolding check_parts
  check_parts-Opens none k cut h = cc
  check_parts-Opens (some (scheme, api_key)) k cut h =
      let checked : Decision =
        if ltb 256 (length api_key)
        then reject 401 (codes "invalid api key format")
        else look_up bcrypt answers now t api_key (prefix_of api_key) in
      elim (Bool-cases (equal_fold scheme (codes "bearer"))) [
        | inr other ↦ absurd (pass-reject k _ _ (then_case _ _ _ (ap not other) h))
        | inl bearer ↦
            let rest : checked ≡ pass k = else_case _ _ _ (ap not bearer) h in
            elim (Bool-cases (ltb 256 (length api_key))) [
              | inl long ↦ absurd (pass-reject k _ _ (then_case _ _ _ long rest))
              | inr short ↦
                  look_up-Opens scheme api_key k cut bearer short (prefix_of api_key) refl
                    (else_case _ _ _ short rest)
            ]
      ]

  -- A request is let through only with a bearer token of at most 256 bytes whose prefix and whose hash
  -- are those of a row of the table, neither revoked nor expired; it then acts for that row's customer
  -- in that row's role.
  pub api_key_auth-Opens :
      (k : ApiKey)
      → api_key_auth bcrypt answers now t auth_header ≡ pass k
      → Opens bcrypt now t auth_header k
  unfolding api_key_auth
  api_key_auth-Opens k h = elim (Bool-cases (is_empty auth_header)) [
    | inl missing ↦ absurd (pass-reject k _ _ (then_case _ _ _ missing h))
    | inr there ↦ check_parts-Opens (cut_at_space [] auth_header) k refl (else_case _ _ _ there h)
  ]

-- The other way round: a bearer token whose prefix and hash are those of the first row that GetByPrefix
-- returns lets the request through for that row, if the row has not expired and the database answers.
pub api_key_auth-pass :
    (bcrypt : Bcrypt) (now : ℕ) (t rest : ApiKeys.Table) (api_key prefix : Bytes) (k : ApiKey)
    → ltb 256 (length api_key) ≡ false
    → prefix_of api_key ≡ Auth.ok prefix
    → ApiKeys.get_by_prefix prefix t ≡ k ∷ rest
    → validate_api_key bcrypt api_key k.key_hash ≡ true
    → has_expired now k ≡ false
    → api_key_auth bcrypt true now t (codes "Bearer " ++ api_key) ≡ pass k
unfolding api_key_auth cut_at_space check_parts look_up valid_key admit
api_key_auth-pass bcrypt now t rest api_key prefix k short has listed valid fresh =
    rw (short, has, listed, valid, fresh) refl
