-- ===== src/Examples/Crypto.antt =====
-- The key ring, the API keys and the hash chain on concrete inputs.
use rainlogs.Prelude.{
  ◌≡◌, refl, ◌⊎◌, ◌↔◌, arith, true, some, List, [], ◌∷◌, ◌++◌, Bytes, codes, All, bytes_eq,
  bytes_eq_iff,
}
use rainlogs.Hex.{encode, decode}
use rainlogs.Hex.RoundTrip.{IsByte, decode-encode}
use rainlogs.Worm.{Row, genesis_hash, verify_chain}
use rainlogs.Worm.Binding.{Collision, Link, hashed, head_after_binds}
use rainlogs.Worm.Audit.{IsIntact, IsLinked, verify_chain_iff}
use rainlogs.Auth.{Bcrypt}
use rainlogs.Examples.Setup.{short_hash}

short_hash-bytes : (x : Bytes) → All IsByte (short_hash x)
short_hash-bytes x = (omega arith, tt)

decode-encode_example : decode (encode (0 ∷ 171 ∷ [])) ≡ some (0 ∷ 171 ∷ [])
decode-encode_example = decode-encode (0 ∷ 171 ∷ []) (omega arith, (omega arith, tt))

abbrev links : List Link
links =
    record { object_sha256 = codes "aa"; job_id = codes "1" }
    ∷ record { object_sha256 = codes "bb"; job_id = codes "2" }
    ∷ []

head_after_binds_example :
    ((genesis_hash ≡ genesis_hash) × (links ≡ links))
    ⊎ Collision short_hash
        (hashed short_hash genesis_hash links)
        (hashed short_hash genesis_hash links)
head_after_binds_example =
    head_after_binds short_hash short_hash-bytes (λ x y. refl) genesis_hash genesis_hash links links
      refl (refl, (refl, tt)) refl

abbrev first_row : Row
first_row = record { id = 1; previous_hash = []; payload = codes "a" }

abbrev second_row : Row
second_row = record { id = 2; previous_hash = codes "01"; payload = codes "b" }

verify_chain_iff_example :
    IsIntact short_hash (verify_chain short_hash (first_row ∷ second_row ∷ []))
    ↔ IsLinked short_hash (first_row ∷ second_row ∷ [])
verify_chain_iff_example = verify_chain_iff short_hash (first_row ∷ second_row ∷ [])

first_row-IsIntact :
    IsIntact short_hash (verify_chain short_hash ((first_row ∷ []) ++ second_row ∷ []))
unfolding verify_chain encode
first_row-IsIntact = tt

pub bytes_eq_same :
    (password hash : Bytes) → some password ≡ some hash → bytes_eq hash password ≡ true
bytes_eq_same password hash e = (bytes_eq_iff hash password).1 (cc (e))

-- A hash that only writes the password down.
abbrev pub bcrypt : Bcrypt
bcrypt = record {
  generate = λ password. some password;
  matches = bytes_eq;
  generate_short = λ password h. (password, refl);
  matches-generate = λ password hash e. bytes_eq_same password hash e;
}
