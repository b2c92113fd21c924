-- ===== src/Examples/KeyRing.antt =====
-- A key ring of two keys, and a cipher that hides nothing.
use rainlogs.Prelude.{ℕ, zero, suc, refl, ◌≢◌, arith, some, [], ◌∷◌, Bytes, codes, All}
use rainlogs.Hex.RoundTrip.{IsByte}
use rainlogs.Kms.{Aead, Encryptor, lookup}
use rainlogs.Kms.RoundTrip.{IsReady}

-- A cipher that only writes the plaintext down.
abbrev pub aead : Aead
aead = record {
  seal = λ key nonce plaintext. plaintext;
  unseal = λ key nonce sealed. some sealed;
  unseal-seal = λ key nonce plaintext. refl;
  seal_bytes = λ key nonce plaintext hn hp. hp;
}

abbrev pub repeat : ℕ → ℕ → Bytes
repeat zero x = []
repeat (suc n) x = x ∷ repeat n x

abbrev pub zero_key : Bytes
zero_key = repeat 32 0

abbrev pub zero_nonce : Bytes
zero_nonce = repeat 12 0

abbrev pub ring : Encryptor
ring = record {
  keys = (codes "v2", zero_key) ∷ (codes "v1", zero_key) ∷ [];
  active_key_id = codes "v2";
}

pub ring-IsReady : IsReady ring
unfolding lookup
ring-IsReady = record { sized = (refl, (refl, tt)); key = zero_key; is_active = refl }

pub no_colon : All (λ c. c ≢ b':') (codes "v2")
no_colon = ((λ e. ground (arith, e)), ((λ e. ground (arith, e)), tt))

repeat-All : (n : ℕ) → All IsByte (repeat n 0)
repeat-All zero = tt
repeat-All (suc n) = (omega arith, repeat-All n)

pub zero_nonce-bytes : All IsByte zero_nonce
zero_nonce-bytes = repeat-All 12
