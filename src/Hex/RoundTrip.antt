-- ===== src/Hex/RoundTrip.antt =====
-- Decoding an encoded byte string gives it back, and no encoded string holds a colon.
use rainlogs.Prelude.{
  ℕ, ◌*◌, ◌/◌, ◌%◌, ◌<◌, ◌≡◌, refl, ◌≢◌, some, [], ◌∷◌, arith, length, Bytes, All,
}
use rainlogs.Hex.{hex_digit, from_hex_digit, encode, decode}

abbrev pub IsByte : ℕ → Type 0
IsByte b = b < 256

from_hex_digit-hex_digit : (n : ℕ) → n < 16 → from_hex_digit (hex_digit n) ≡ some n
unfolding hex_digit from_hex_digit
from_hex_digit-hex_digit n h = ground arith

pub decode-encode : (bs : Bytes) → All IsByte bs → decode (encode bs) ≡ some bs
unfolding encode decode
decode-encode [] _ = refl
decode-encode (b ∷ bs) (h, hs) = ground (
  arith,
  from_hex_digit-hex_digit (b / 16),
  from_hex_digit-hex_digit (b % 16),
  decode-encode bs hs,
)

pub length-encode : (bs : Bytes) → length (encode bs) ≡ 2 * length bs
unfolding encode
length-encode [] = refl
length-encode (b ∷ bs) = omega (arith, length-encode bs)

hex_digit-ne-colon : (n : ℕ) → n < 16 → hex_digit n ≢ b':'
unfolding hex_digit
hex_digit-ne-colon n h = ground arith

pub encode-ne-colon : (bs : Bytes) → All IsByte bs → All (λ c. c ≢ b':') (encode bs)
unfolding encode
encode-ne-colon [] _ = tt
encode-ne-colon (b ∷ bs) (h, hs) = (
  hex_digit-ne-colon (b / 16) (omega arith),
  (hex_digit-ne-colon (b % 16) (omega arith), encode-ne-colon bs hs),
)
