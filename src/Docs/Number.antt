-- ===== src/Docs/Number.antt =====
-- The numbers of JavaScript, as docs/.vitepress/theme/Rain.vue uses them: non-negative doubles.
--
-- A double is a whole number of units of 2 ^ -1074, the smallest positive double, so `1` is `unit`. An
-- operation computes the exact value, a fraction of units, and rounds it to 53 significant bits, to the
-- nearest and at a tie to the even one, which is what ECMAScript asks of +, -, * and of a literal.
-- Infinity and what lies below 0 are left out: no value of the site comes near.
pub mod Rounding
use rainlogs.Prelude.{
  ℕ, zero, suc, ◌+◌, ◌-◌, ◌*◌, ◌/◌, ◌%◌, ◌^◌, ◌++◌, ◌∷◌, ltb, ◌==◌, if◌then◌else◌, Bytes,
}
use rainlogs.Calendar.{decimal, padded}

unfoldable pub unit : ℕ
unit = 2 ^ 1074

-- The largest double below 1: 1 - 2 ^ -53.
unfoldable pub below_one : ℕ
below_one = 2 ^ 1074 - 2 ^ 1021

-- The whole number nearest to q + r / d, at a tie the even one.
abbrev pub nearer : (q r d : ℕ) → ℕ
nearer q r d = if ltb (2 * r) d then q else if ltb d (2 * r) then q + 1 else q + q % 2

unfoldable pub nearest : ℕ → ℕ → ℕ
nearest a d = nearer (a / d) (a % d) d

-- Halved until 53 bits hold the value.
unfoldable pub round_from : ℕ → ℕ → ℕ → ℕ
round_from zero a d = nearest a d
round_from (suc fuel) a d =
    let halved = 2 * round_from fuel a (2 * d) in
    if ltb (a / d) (2 ^ 53) then nearest a d else halved

-- A double has at most 2098 bits of units.
abbrev pub max_halvings : ℕ
max_halvings = 2100

-- The double nearest to a / d units.
unfoldable pub round : ℕ → ℕ → ℕ
unfolding round_from nearest
round a d = round_from max_halvings a d

-- The literal n / d.
unfoldable pub literal : ℕ → ℕ → ℕ
unfolding round unit
literal n d = round (n * unit) d

unfoldable pub add : ℕ → ℕ → ℕ
unfolding round
add x y = round (x + y) 1

-- For y at most x.
unfoldable pub sub : ℕ → ℕ → ℕ
unfolding round
sub x y = round (x - y) 1

unfoldable pub mul : ℕ → ℕ → ℕ
unfolding round unit
mul x y = round (x * y) unit

-- Math.floor
unfoldable pub floor : ℕ → ℕ
unfolding unit
floor x = x / unit

-- The n of toFixed(2): n / 100 is nearest to x, at a tie the larger one.
unfoldable pub hundredths : ℕ → ℕ
unfolding unit
hundredths x = (200 * x + unit) / (2 * unit)

unfoldable pub to_fixed_text : ℕ → Bytes
unfolding decimal padded
to_fixed_text n = decimal (n / 100) ++ (b'.' ∷ padded 2 (n % 100))

-- x.toFixed(2)
unfoldable pub to_fixed : ℕ → Bytes
unfolding hundredths to_fixed_text
to_fixed x = to_fixed_text (hundredths x)

-- The whole number nearest to x * 10 ^ places.
unfoldable pub scaled : ℕ → ℕ → ℕ
unfolding unit
scaled places x = (2 * (x * 10 ^ places) + unit) / (2 * unit)

-- The fewest places after the point whose decimal rounds to x, at most 17.
unfoldable pub places_from : ℕ → ℕ → ℕ → ℕ
unfolding round scaled unit
places_from zero places x = places
places_from (suc fuel) places x =
    let more = places_from fuel (suc places) x in
    if round (scaled places x * unit) (10 ^ places) == x then places else more

unfoldable pub places_of : ℕ → ℕ
unfolding places_from
places_of x = places_from 17 0 x

unfoldable pub decimal_text : ℕ → ℕ → Bytes
unfolding decimal padded
decimal_text zero n = decimal n
decimal_text (suc k) n = decimal (n / 10 ^ suc k) ++ (b'.' ∷ padded (suc k) (n % 10 ^ suc k))

-- String(x) for x from 0.1 up to 10: the shortest decimal that stands for x.
unfoldable pub to_string : ℕ → Bytes
unfolding places_of decimal_text scaled
to_string x = decimal_text (places_of x) (scaled (places_of x) x)
