-- ===== src/Hex.antt =====
-- encoding/hex of Go's standard library, as internal/kms and pkg/worm use it: lower-case output,
-- both cases accepted on input, an odd length or another byte refused.
pub mod RoundTrip
use rainlogs.Prelude.{
  ℕ, ◌+◌, ◌-◌, ◌*◌, ◌/◌, ◌%◌, Bool, true, false, ◌&&◌, Option, none, some, List, [], ◌∷◌, ltb, leb,
  if◌then◌else◌, Bytes,
}

pub hex_digit : ℕ → ℕ
hex_digit n = if ltb n 10 then b'0' + n else b'a' + n - 10

pub from_hex_digit : ℕ → Option ℕ
from_hex_digit c =
    if leb b'0' c && leb c b'9'
    then some (c - b'0')
    else if leb b'a' c && leb c b'f'
    then some (c - b'a' + 10)
    else if leb b'A' c && leb c b'F'
    then some (c - b'A' + 10)
    else none

unfoldable pub encode : Bytes → Bytes
unfolding hex_digit
encode [] = []
encode (b ∷ bs) = hex_digit (b / 16) ∷ hex_digit (b % 16) ∷ encode bs

abbrev join_digits : Option ℕ → Option ℕ → Option Bytes → Option Bytes
join_digits (some h) (some l) (some rest) = some ((h * 16 + l) ∷ rest)
join_digits _ _ _ = none

unfoldable pub decode : Bytes → Option Bytes
unfolding from_hex_digit
decode [] = some []
decode (_ ∷ []) = none
decode (h ∷ l ∷ rest) = join_digits (from_hex_digit h) (from_hex_digit l) (decode rest)
