-- ===== src/Auth/Keys.antt =====
-- A generated API key is found again by its prefix and passes validation.
use rainlogs.Prelude.{
  ℕ, zero, suc, ◌+◌, ◌*◌, false, ◌≡◌, true, some, [], ◌∷◌, ◌++◌, arith, ltb, length, take,
  length-append, length-take, Bytes,
}
use rainlogs.Auth.{
  base64_url, token_bytes, token_prefix, prefix_len, Bcrypt, ok, GeneratedKey, hashed,
  generate_api_key, validate_api_key, prefix_of,
}

-- Four characters for each three bytes, and three for the two that are left.
length-base64_url : (k : ℕ) (b : Bytes) → length b ≡ 3 * k + 2 → length (base64_url b) ≡ 4 * k + 3
unfolding base64_url
length-base64_url k [] h = absurd (omega arith)
length-base64_url k (a ∷ []) h = absurd (omega arith)
length-base64_url k (a ∷ b ∷ []) h = omega arith
length-base64_url zero (a ∷ b ∷ c ∷ rest) h = absurd (omega arith)
length-base64_url (suc k) (a ∷ b ∷ c ∷ rest) h =
    omega (arith, length-base64_url k rest (omega arith))

-- From 32 random bytes GenerateAPIKey makes a key of 46 characters, whose prefix of 8 characters
-- PrefixOf extracts and whose hash ValidateAPIKey accepts.
pub generate_api_key_lem :
    (bcrypt : Bcrypt) (b : Bytes)
    → length b ≡ token_bytes
    → (k : GeneratedKey) × (generate_api_key bcrypt (some b) ≡ ok k)
      × (length k.plaintext ≡ 46)
      × (prefix_of k.plaintext ≡ ok k.prefix)
      × (length k.prefix ≡ prefix_len)
      × (validate_api_key bcrypt k.plaintext k.hash ≡ true)
unfolding generate_api_key validate_api_key prefix_of
generate_api_key_lem bcrypt b h =
    let wide = length-base64_url 10 b h in
    let (hash, hashes) =
      bcrypt.generate_short (token_prefix ++ base64_url b)
        (omega (arith, length-append token_prefix (base64_url b), wide)) in
    let tested : ltb (length (base64_url b)) prefix_len ≡ false = ground arith in
    (
      record {
        plaintext = token_prefix ++ base64_url b;
        hash = hash;
        prefix = take prefix_len (base64_url b);
      },
      rw (tested, hashes, hashed),
      omega (arith, length-append token_prefix (base64_url b), wide),
      rw tested,
      omega (arith, length-take prefix_len (base64_url b), wide),
      bcrypt.matches-generate (token_prefix ++ base64_url b) hash hashes,
    )
