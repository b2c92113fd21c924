-- ===== src/Strconv.antt =====
-- strconv.Atoi of the standard library on a 64-bit platform, as the program uses it, and the
-- conversion of the result to a duration.
use rainlogs.Prelude.{
  ℕ, suc, ◌+◌, ◌-◌, ◌*◌, ◌%◌, ◌^◌, ◌&&◌, Option, none, some, [], ◌∷◌, ltb, leb, ◌==◌, if◌then◌else◌,
  Bytes, ℤ, pos, negsuc,
}
use rainlogs.Calendar.{second}

digits_value : ℕ → Bytes → Option ℕ
digits_value acc [] = some acc
digits_value acc (c ∷ s) =
    let more = digits_value (acc * 10 + (c - b'0')) s in
    if leb b'0' c && leb c b'9' then more else none

-- At least one digit.
unsigned : Bytes → Option ℕ
unsigned [] = none
unsigned (c ∷ s) = digits_value 0 (c ∷ s)

positive : Option ℕ → Option ℤ
positive none = none
positive (some n) = if ltb n (2 ^ 63) then some (pos n) else none

negative : Option ℕ → Option ℤ
negative none = none
negative (some n) = if leb n (2 ^ 63) then some (if n == 0 then pos 0 else negsuc (n - 1)) else none

-- A value outside int64 is a range error.
unfoldable pub atoi : Bytes → Option ℤ
unfolding digits_value unsigned positive negative
atoi [] = none
atoi (c ∷ s) =
    if c == b'-'
    then negative (unsigned s)
    else if c == b'+'
    then positive (unsigned s)
    else positive (unsigned (c ∷ s))

-- The int64 with these low 64 bits.
int64 : ℕ → ℤ
int64 x = if ltb x (2 ^ 63) then pos x else negsuc (2 ^ 64 - x - 1)

-- time.Duration(v) * time.Second, with its wrap-around.
unfoldable pub seconds : ℤ → ℤ
unfolding int64
seconds (pos n) = int64 (n * second % 2 ^ 64)
seconds (negsuc n) = int64 ((2 ^ 64 - suc n * second % 2 ^ 64) % 2 ^ 64)
