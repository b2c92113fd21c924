-- ===== src/Kms/RoundTrip.antt =====
-- What a key ring of NewKeyRing encrypts, it decrypts, also after a rotation that keeps the key.
use rainlogs.Prelude.{
  ◌≡◌, refl, ◌≢◌, subst, inl, inr, true, none, some, List, [], ◌∷◌, ◌++◌, append_assoc, append-nil,
  arith, ==_iff, length, take, drop, length-append, take-length_append, drop-length_append,
  Option-cases, Bytes, All, All-append,
}
use rainlogs.Hex.{encode}
use rainlogs.Hex.RoundTrip.{IsByte, decode-encode}
use rainlogs.Kms.{
  v1, on_success-parts, key_or_nil, key_and_hex, key_not_found, ok, err, lookup, insert, Encryptor,
  decode_key, decode_keys, has_active, new_key_ring, Aead, nonce_size, aes_key_ok, colon,
  split_colon, encrypt, decrypt, decrypt_with, open_sealed,
}

abbrev pub HasNoColon : Bytes → Type 0
HasNoColon = All (λ c. c ≢ b':')

split_colon-append :
    (before id rest : Bytes)
    → HasNoColon id
    → split_colon before (id ++ b':' ∷ rest) ≡ some (before ++ id, rest)
unfolding split_colon
split_colon-append before [] rest _ = rw append-nil
split_colon-append before (c ∷ id) rest (h, hs) =
    ground
      (arith, split_colon-append (before ++ c ∷ []) id rest hs, append_assoc before (c ∷ []) id)

abbrev AllSized : List (Bytes × Bytes) → Type 0
AllSized = All (λ e. length e.1 ≡ 32)

-- Every key has 32 bytes, and the active one is there.
pub record IsReady (e : Encryptor) : Type 0 where
  pub sized : AllSized e.keys
  pub key : Bytes
  pub is_active : lookup e.active_key_id e.keys ≡ some key

insert-AllSized :
    (id key : Bytes) (keys : List (Bytes × Bytes))
    → length key ≡ 32
    → AllSized keys
    → AllSized (insert id key keys)
unfolding insert
insert-AllSized id key [] h s = (h, tt)
insert-AllSized id key ((j, w) ∷ keys) h s = ground (arith, insert-AllSized id key keys h s.1)

lookup-AllSized :
    (id key : Bytes) (keys : List (Bytes × Bytes))
    → AllSized keys
    → lookup id keys ≡ some key
    → length key ≡ 32
unfolding lookup
lookup-AllSized id key [] s e = cc
lookup-AllSized id key ((j, w) ∷ keys) s e = ground (arith, lookup-AllSized id key keys s.1)

decode_key-length : (hex_key key : Bytes) → decode_key hex_key ≡ ok key → length key ≡ 32
unfolding decode_key
decode_key-length hex_key key e = ground (arith, ==_iff (length key) 32)

decode_keys-AllSized :
    (decoded keys result : List (Bytes × Bytes))
    → AllSized decoded
    → decode_keys decoded keys ≡ ok result
    → AllSized result
unfolding decode_keys
decode_keys-AllSized decoded [] result s e =
    let same : decoded ≡ result = cc in subst AllSized same s
decode_keys-AllSized decoded ((id, hex_key) ∷ keys) result s e =
    let (key, rest, got) = on_success-parts _ (decode_key hex_key) e in
    decode_keys-AllSized (insert id key decoded) keys result
      (insert-AllSized id key decoded (decode_key-length hex_key key got) s) rest

has_active-IsReady :
    (active : Bytes) (decoded : List (Bytes × Bytes)) (e : Encryptor)
    → AllSized decoded
    → has_active active decoded ≡ ok e
    → IsReady e
unfolding has_active
has_active-IsReady active decoded e s h = elim (Option-cases (lookup active decoded)) [
  | inl missing ↦ ground arith
  | inr (key, found) ↦
      let same : record { keys = decoded; active_key_id = active } ≡ e = ground arith in
      subst IsReady same (record { sized = s; key = key; is_active = found })
]

-- What NewKeyRing accepts is ready to encrypt: every key has 32 bytes and the active one is there.
new_key_ring-IsReady :
    (keys : List (Bytes × Bytes)) (active : Bytes) (e : Encryptor)
    → new_key_ring keys active ≡ ok e
    → IsReady e
unfolding new_key_ring
new_key_ring-IsReady keys active e h =
    let (decoded, rest, got) = on_success-parts (has_active active) (decode_keys [] keys) h in
    has_active-IsReady active decoded e (decode_keys-AllSized [] keys decoded tt got) rest

aes_key_ok_of_length : (key : Bytes) → length key ≡ 32 → aes_key_ok key ≡ true
unfolding aes_key_ok
aes_key_ok_of_length key h = rw h

module _ (aead : Aead) where
  open_sealed-seal :
      (key nonce plaintext : Bytes)
      → length key ≡ 32
      → length nonce ≡ nonce_size
      → open_sealed aead key (nonce ++ aead.seal key nonce plaintext) ≡ ok plaintext
  unfolding open_sealed
  open_sealed-seal key nonce plaintext hk hn = ground (
    arith,
    aes_key_ok_of_length key,
    length-append nonce (aead.seal key nonce plaintext),
    take_nonce,
    drop_nonce,
    aead.unseal-seal key nonce plaintext,
  )
    where
      take_nonce : take nonce_size (nonce ++ aead.seal key nonce plaintext) ≡ nonce
      take_nonce = rw (← hn) (take-length_append nonce _)

      drop_nonce :
          drop nonce_size (nonce ++ aead.seal key nonce plaintext) ≡ aead.seal key nonce plaintext
      drop_nonce = rw (← hn) (drop-length_append nonce _)

  decrypt_with-seal :
      (key nonce plaintext : Bytes)
      → length key ≡ 32
      → length nonce ≡ nonce_size
      → All IsByte nonce
      → All IsByte plaintext
      → decrypt_with aead (some key) (encode (nonce ++ aead.seal key nonce plaintext))
        ≡ ok plaintext
  unfolding decrypt_with
  decrypt_with-seal key nonce plaintext hk hn b bp =
      rw
        (
          decrypt_with,
          decode-encode _ (All-append IsByte nonce _ b (aead.seal_bytes key nonce plaintext b bp)),
        )
        (open_sealed-seal key nonce plaintext hk hn)

  -- What a ready key ring encrypts, a key ring that has the same key under the same identifier decrypts,
  -- where that identifier holds no colon and the nonce has 12 bytes; so a rotation that keeps the old
  -- key keeps what it encrypted.
  pub decrypt-encrypt :
      (e later : Encryptor) (nonce plaintext : Bytes)
      → IsReady e
      → HasNoColon e.active_key_id
      → lookup e.active_key_id later.keys ≡ lookup e.active_key_id e.keys
      → length nonce ≡ nonce_size
      → All IsByte nonce
      → All IsByte plaintext
      → (c : Bytes) × (encrypt aead e (some nonce) plaintext ≡ ok c)
        × (decrypt aead later c ≡ ok plaintext)
  unfolding encrypt decrypt
  decrypt-encrypt e later nonce plaintext r clean same size bytes plain_bytes =
      let sized = lookup-AllSized e.active_key_id r.key e.keys r.sized r.is_active in
      (
        e.active_key_id ++ (colon ++ encode (nonce ++ aead.seal r.key nonce plaintext)),
        rw (r.is_active, key_or_nil, aes_key_ok_of_length r.key sized),
        rw (split_colon-append [] e.active_key_id _ clean, key_and_hex, same, r.is_active)
            (decrypt_with-seal r.key nonce plaintext sized size bytes plain_bytes),
      )

  encrypt_form :
      (e : Encryptor) (nonce plaintext c : Bytes)
      → encrypt aead e (some nonce) plaintext ≡ ok c
      → (rest : Bytes) × (c ≡ e.active_key_id ++ b':' ∷ rest)
  unfolding encrypt
  encrypt_form e nonce plaintext c h = (
    encode (nonce ++ aead.seal (key_or_nil (lookup e.active_key_id e.keys)) nonce plaintext),
    ground arith,
  )

  -- Where the identifier of the active key holds a colon, and what stands before its first colon names
  -- no key, nothing that the key ring encrypts can be decrypted again: the key is not found.
  decrypt_colon_id :
      (e : Encryptor) (nonce plaintext c before after : Bytes)
      → e.active_key_id ≡ before ++ b':' ∷ after
      → HasNoColon before
      → lookup before e.keys ≡ none
      → encrypt aead e (some nonce) plaintext ≡ ok c
      → decrypt aead e c ≡ err key_not_found
  unfolding decrypt
  decrypt_colon_id e nonce plaintext c before after id clean missing h =
      let (rest, form) = encrypt_form e nonce plaintext c h in
      let split : split_colon [] c ≡ some (before, after ++ b':' ∷ rest) =
        rw (form, id, append_assoc before (b':' ∷ after) (b':' ∷ rest))
          (split_colon-append [] before (after ++ b':' ∷ rest) clean) in
      rw (split, key_and_hex, missing)

  split_colon-none : (before input : Bytes) → HasNoColon input → split_colon before input ≡ none
  unfolding split_colon
  split_colon-none before [] _ = refl
  split_colon-none before (c ∷ input) (h, hs) =
      ground (arith, split_colon-none (before ++ c ∷ []) input hs)

  -- A ciphertext in the legacy format reads as the same ciphertext under the identifier "v1".
  decrypt_legacy :
      (e : Encryptor) (hex_ciphertext : Bytes)
      → HasNoColon hex_ciphertext
      → decrypt aead e hex_ciphertext ≡ decrypt aead e (v1 ++ (colon ++ hex_ciphertext))
  unfolding decrypt
  decrypt_legacy e hex_ciphertext clean = rw (split_colon-none [] hex_ciphertext clean, key_and_hex)
