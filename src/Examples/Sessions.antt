-- ===== src/Examples/Sessions.antt =====
-- Tokens that carry their key in the open, and requests with them.
use rainlogs.Prelude.{
  ℕ, zero, suc, ◌+◌, ◌*◌, ◌≡◌, refl, sym, ap, subst, ◌∙◌, inl, inr, arith, Bool, true, false, ◌&&◌,
  Option, none, some, [], ◌∷◌, ◌++◌, ltb, ltb→lt, lt→ltb, if◌then◌else◌, length, take, drop,
  take-length_append, drop-length_append, Bytes, codes, bytes_eq, bytes_eq_iff, bytes_eq_refl,
  Bool-cases, then_case, else_case,
}
use rainlogs.Calendar.{second, decimal}
use rainlogs.Auth.Sessions.{
  Jwt, Claims, SigningMethod, hs256, hs384, hs512, other, InTime, claims_of, issue_jwt, verify_jwt,
}
use rainlogs.Api.Access.{cut_at_space}
use rainlogs.Api.Sessions.{jwt_auth, pass, check_parts, check_claims}
use rainlogs.Api.Sessions.Tokens.{Rests, jwt_auth-Rests, issue_jwt-jwt_auth}
use rainlogs.Examples.Setup.{customer, noon}

abbrev code_of : Option ℕ → ℕ
code_of none = 0
code_of (some t) = suc t

abbrev time_of : ℕ → Option ℕ
time_of zero = none
time_of (suc t) = some t

time_of-code_of : (o : Option ℕ) → time_of (code_of o) ≡ o
time_of-code_of none = refl
time_of-code_of (some t) = refl

abbrev tag_of : SigningMethod → ℕ
tag_of hs256 = 0
tag_of hs384 = 1
tag_of hs512 = 2
tag_of (other _) = 3

abbrev method_of : ℕ → SigningMethod
method_of zero = hs256
method_of (suc zero) = hs384
method_of (suc (suc zero)) = hs512
method_of (suc (suc (suc n))) = other []

abbrev can_sign : SigningMethod → Bool
can_sign (other _) = false
can_sign _ = true

method_of-tag_of : (m : SigningMethod) → can_sign m ≡ true → method_of (tag_of m) ≡ m
method_of-tag_of hs256 h = refl
method_of-tag_of hs384 h = refl
method_of-tag_of hs512 h = refl
method_of-tag_of (other name) h = cc

abbrev token_of : SigningMethod → Bytes → Claims → Bytes
token_of m key c =
    tag_of m
    ∷ code_of c.expires_at
    ∷ code_of c.issued_at
    ∷ length key
    ∷ length c.customer_id
    ∷ (key ++ (c.customer_id ++ c.subject))

abbrev decoded : Bytes → Option (SigningMethod × (Bytes × Claims))
decoded (tag ∷ e ∷ i ∷ k ∷ n ∷ body) = some (
  method_of tag,
  (
    take k body,
    record {
      customer_id = take n (drop k body);
      expires_at = time_of e;
      issued_at = time_of i;
      subject = drop n (drop k body);
    },
  ),
)
decoded _ = none

decoded-token_of :
    (m : SigningMethod) (key : Bytes) (c : Claims)
    → can_sign m ≡ true
    → decoded (token_of m key c) ≡ some (m, (key, c))
decoded-token_of m key c h =
    rw
      (
        method_of-tag_of m h,
        time_of-code_of c.expires_at,
        time_of-code_of c.issued_at,
        take-length_append key (c.customer_id ++ c.subject),
        drop-length_append key (c.customer_id ++ c.subject),
        take-length_append c.customer_id c.subject,
        drop-length_append c.customer_id c.subject,
      )
      refl

abbrev is_in_time : ℕ → Option ℕ → Bool
is_in_time now none = true
is_in_time now (some t) = ltb now (t * second)

is_in_time-InTime : (now : ℕ) (o : Option ℕ) → InTime now o → is_in_time now o ≡ true
is_in_time-InTime now none h = refl
is_in_time-InTime now (some t) h = lt→ltb now (t * second) h

InTime-is_in_time : (now : ℕ) (o : Option ℕ) → is_in_time now o ≡ true → InTime now o
InTime-is_in_time now none h = tt
InTime-is_in_time now (some t) h = ltb→lt now (t * second) h

abbrev is_key : Bytes → Option Bytes → Bool
is_key key none = false
is_key key (some k) = bytes_eq key k

is_key-some : (key : Bytes) (o : Option Bytes) → is_key key o ≡ true → o ≡ some key
is_key-some key none h = cc
is_key-some key (some k) h = ap some (sym ((bytes_eq_iff key k).0 h))

abbrev checked :
    (SigningMethod → Option Bytes) → ℕ → Option (SigningMethod × (Bytes × Claims)) → Option Claims
checked keys now none = none
checked keys now (some (m, (key, c))) =
    if is_key key (keys m) && is_in_time now c.expires_at then some c else none

both : (a b : Bool) → (a && b) ≡ true → (a ≡ true) × (b ≡ true)
both true b h = (refl, h)
both false b h = cc

checked-Signed :
    (keys : SigningMethod → Option Bytes) (c : Claims) (token : Bytes) (now : ℕ)
    (o : Option (SigningMethod × (Bytes × Claims)))
    → decoded token ≡ o
    → checked keys now o ≡ some c
    → (m : SigningMethod) × (key : Bytes) × (keys m ≡ some key)
      × (decoded token ≡ some (m, (key, c)))
      × InTime now c.expires_at
checked-Signed keys c token now none e h = cc
checked-Signed keys c token now (some (m, (key, d))) e h =
    elim (Bool-cases (is_key key (keys m) && is_in_time now d.expires_at)) [
      | inl good ↦
          let (known, fresh) = both (is_key key (keys m)) _ good in
          let same : d ≡ c = cc (then_case _ _ _ good h) in
          (
            m,
            key,
            is_key-some key (keys m) known,
            subst (λ d. decoded token ≡ some (m, (key, d))) same e,
            subst (λ d. InTime now d.expires_at) same (InTime-is_in_time now d.expires_at fresh),
          )
      | inr bad ↦ cc (else_case _ _ _ bad h)
    ]

abbrev jwt : Jwt
jwt = record {
  Signed = λ m key c token. decoded token ≡ some (m, (key, c));
  signed_string = λ m key c. if can_sign m then some (token_of m key c) else none;
  parse_with_claims = λ keys now token. checked keys now (decoded token);
  parse-signed = λ keys m key c token now signed known in_time. elim (Bool-cases (can_sign m)) [
    | inl able ↦
        let same : token_of m key c ≡ token = cc (then_case _ _ _ able signed) in
        ap (λ t. checked keys now (decoded t)) (sym same)
        ∙ ap (checked keys now) (decoded-token_of m key c able)
        ∙ rw (known, bytes_eq_refl key, is_in_time-InTime now c.expires_at in_time) refl
    | inr unable ↦ cc (else_case _ _ _ unable signed)
  ];
  parse-Signed = λ keys c token now h. checked-Signed keys c token now (decoded token) refl h;
}

abbrev parse_uuid : Bytes → Option ℕ
parse_uuid text = if bytes_eq text (codes "1") then some 1 else none

abbrev token : Bytes
token = token_of hs256 (codes "secret") (claims_of jwt decimal customer (3600 * second) noon)

issue_jwt-jwt_auth_example :
    jwt_auth jwt parse_uuid (codes "secret") (noon + second) (codes "Bearer " ++ token) ≡ pass 1
unfolding decimal issue_jwt
issue_jwt-jwt_auth_example =
    issue_jwt-jwt_auth jwt decimal parse_uuid (codes "secret") customer (3600 * second) noon
      (noon + second) token refl refl (omega arith)

opened :
    jwt_auth jwt parse_uuid (codes "secret") (noon + second) (codes "Bearer " ++ token) ≡ pass 1
unfolding decimal jwt_auth cut_at_space check_parts check_claims verify_jwt
opened = refl

jwt_auth-Rests_example :
    Rests jwt parse_uuid (codes "secret") (noon + second) (codes "Bearer " ++ token) 1
jwt_auth-Rests_example =
    jwt_auth-Rests jwt parse_uuid (codes "secret") (noon + second) (codes "Bearer " ++ token) 1
      opened
