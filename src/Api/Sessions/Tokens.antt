-- ===== src/Api/Sessions/Tokens.antt =====
-- Which tokens open the dashboard.
use rainlogs.Prelude.{
  ℕ, ◌+◌, ◌*◌, ◌/◌, ◌<◌, ◌≡◌, refl, subst, inl, inr, true, not, Option, none, some, [], ◌++◌,
  is_empty, Bytes, codes, Bool-cases, then_case, else_case,
}
use rainlogs.Calendar.{second}
use rainlogs.Models.{Customer}
use rainlogs.Auth.Sessions.{
  Jwt, Claims, SigningMethod, hs256, hs384, hs512, other, InTime, is_hmac, keys_of, claims_of,
  issue_jwt, verify_jwt,
}
use rainlogs.Api.Access.{cut_at_space, equal_fold}
use rainlogs.Api.Sessions.{reject, pass, admit, check_claims, check_parts, jwt_auth}

reject-pass : (id status : ℕ) (message : Bytes) → ¬ (reject status message ≡ pass id)
reject-pass id status message h = cc

module _ (jwt : Jwt) (parse_uuid : Bytes → Option ℕ) (secret : Bytes) (now : ℕ) where
  -- A token that a customer's request rests on.
  pub record Rests (auth_header : Bytes) (id : ℕ) : Type 0 where
    pub scheme : Bytes
    pub token : Bytes
    pub claims : Claims
    pub method : SigningMethod
    pub cut : cut_at_space [] auth_header ≡ some (scheme, token)
    pub by_hmac : is_hmac method ≡ true
    pub signed : jwt.Signed method secret claims token
    pub in_time : InTime now claims.expires_at
    pub names : parse_uuid claims.customer_id ≡ some id

  key_known :
      (m : SigningMethod) (key : Bytes)
      → keys_of secret m ≡ some key
      → (is_hmac m ≡ true) × (key ≡ secret)
  key_known hs256 key h = (refl, cc)
  key_known hs384 key h = (refl, cc)
  key_known hs512 key h = (refl, cc)
  key_known (other name) key h = cc

  admit_pass : (o : Option ℕ) (id : ℕ) → admit o ≡ pass id → o ≡ some id
  admit_pass none id h = cc
  admit_pass (some j) id h = cc

  check_claims-Rests :
      (auth_header scheme token : Bytes) (id : ℕ) (o : Option Claims)
      → cut_at_space [] auth_header ≡ some (scheme, token)
      → verify_jwt jwt secret now token ≡ o
      → check_claims jwt parse_uuid secret now o ≡ pass id
      → Rests auth_header id
  unfolding check_claims verify_jwt
  check_claims-Rests auth_header scheme token id none cut v h = cc
  check_claims-Rests auth_header scheme token id (some c) cut v h =
      let (m, key, known, signed, in_time) = jwt.parse-Signed (keys_of secret) c token now v in
      let (by_hmac, same) = key_known m key known in
      record {
        scheme = scheme;
        token = token;
        claims = c;
        method = m;
        cut = cut;
        by_hmac = by_hmac;
        signed = subst (λ k. jwt.Signed m k c token) same signed;
        in_time = in_time;
        names = admit_pass (parse_uuid c.customer_id) id h;
      }

  check_parts-Rests :
      (auth_header : Bytes) (id : ℕ) (o : Option (Bytes × Bytes))
      → cut_at_space [] auth_header ≡ o
      → check_parts jwt parse_uuid secret now o ≡ pass id
      → Rests auth_header id
  unfolding check_parts
  check_parts-Rests auth_header id none cut h = cc
  check_parts-Rests auth_header id (some (scheme, token)) cut h =
      elim (Bool-cases (not (equal_fold scheme (codes "bearer")))) [
        | inl bad ↦ absurd (reject-pass id _ _ (then_case _ _ _ bad h))
        | inr good ↦
            check_claims-Rests auth_header scheme token id (verify_jwt jwt secret now token) cut
              refl (else_case _ _ _ good h)
      ]

  -- Whom JWTAuth lets through has a token that was signed with the secret by an HMAC method, whatever
  -- method the token's own header names, that has not expired, and that names the customer.
  pub jwt_auth-Rests :
      (auth_header : Bytes) (id : ℕ)
      → jwt_auth jwt parse_uuid secret now auth_header ≡ pass id
      → Rests auth_header id
  unfolding jwt_auth
  jwt_auth-Rests auth_header id h = elim (Bool-cases (is_empty auth_header)) [
    | inl missing ↦ absurd (reject-pass id _ _ (then_case _ _ _ missing h))
    | inr there ↦
        check_parts-Rests auth_header id (cut_at_space [] auth_header) refl
          (else_case _ _ _ there h)
  ]

-- What IssueJWT gives a customer opens the dashboard for that customer, until the whole second in which
-- its time to live ends. The text of an identifier is parsed back.
pub issue_jwt-jwt_auth :
    (jwt : Jwt) (uuid_text : ℕ → Bytes) (parse_uuid : Bytes → Option ℕ) (secret : Bytes)
    (c : Customer) (ttl then_ now : ℕ) (token : Bytes)
    → parse_uuid (uuid_text c.id) ≡ some c.id
    → issue_jwt jwt uuid_text secret c ttl then_ ≡ some token
    → now < (then_ + ttl) / second * second
    → jwt_auth jwt parse_uuid secret now (codes "Bearer " ++ token) ≡ pass c.id
unfolding issue_jwt jwt_auth cut_at_space check_parts check_claims verify_jwt
issue_jwt-jwt_auth jwt uuid_text parse_uuid secret c ttl then_ now token parses issued in_time =
    rw
      (
        jwt.parse-signed (keys_of secret) hs256 secret (claims_of jwt uuid_text c ttl then_) token
            now issued refl in_time,
        parses,
      )
      refl
