-- ===== src/Docs/Number/Rounding.antt =====
-- Rounding keeps order and leaves doubles as they are.
use rainlogs.Prelude.{
  ℕ, zero, suc, ◌+◌, ◌-◌, ◌*◌, ◌/◌, ◌%◌, ◌^◌, ◌≤◌, ◌<◌, ◌≡◌, refl, ◌∙◌, subst, lt→ltb, ap, inl, inr,
  arith, ltb, ltb→lt, Bool-cases, false,
}
use native.Mathlib.Nat.{
  le-div_iff_mul-le, div-add-mod, div-mul-le_self, mul_left_comm, mul_assoc, mul-le-mul_right,
}
use native.Mathlib.Decide.{dec_lt}
use rainlogs.Docs.Number.{
  unit, add, sub, mul, floor, hundredths, max_halvings, nearer, nearest, round_from, round,
}

pub div_mono : (a b d : ℕ) → 0 < d → a ≤ b → a / d ≤ b / d
div_mono a b d p h = (le-div_iff_mul-le p).1 (omega (arith, div-mul-le_self a d))

nearer_mono : (q r s d : ℕ) → r ≤ s → nearer q r d ≤ nearer q s d
nearer_mono q r s d h = ground arith

nearer_bounds : (q r d : ℕ) → (q ≤ nearer q r d) × (nearer q r d ≤ q + 1)
nearer_bounds q r d = ground arith

nearest_mono : (a b d : ℕ) → 0 < d → a ≤ b → nearest a d ≤ nearest b d
unfolding nearest
nearest_mono a b d p h = elim (dec_lt (a / d) (b / d)) [
  | yes less ↦ omega (arith, nearer_bounds (a / d) (a % d) d, nearer_bounds (b / d) (b % d) d)
  | no same ↦
      let q : b / d ≡ a / d = omega (arith, div_mono a b d p h) in
      rw q (
        nearer_mono (a / d) (a % d) (b % d) d
          (omega (arith, div-add-mod a d, div-add-mod b d, ap (λ n. d * n) q)))
]

halved_ge : (k a d : ℕ) → 0 < d → 2 * k ≤ a / d → k ≤ a / (2 * d)
halved_ge k a d p h =
    let all : 2 * k * d ≤ a = (le-div_iff_mul-le p).0 h in
    (le-div_iff_mul-le (omega arith)).1
      (subst (λ n. n ≤ a) (mul_assoc 2 k d ∙ mul_left_comm 2 k d) all)

two_53 : (n : ℕ) → ltb n (2 ^ 53) ≡ false → 2 * 2 ^ 52 ≤ n
two_53 n h = ground arith

round_from_ge : (fuel a d : ℕ) → 0 < d → 2 ^ 52 ≤ a / d → 2 ^ 52 ≤ round_from fuel a d
unfolding round_from nearest
round_from_ge zero a d p h = omega (arith, nearer_bounds (a / d) (a % d) d)
round_from_ge (suc fuel) a d p h = elim (Bool-cases (ltb (a / d) (2 ^ 53))) [
  | inl small ↦ rw small (omega (arith, nearer_bounds (a / d) (a % d) d))
  | inr large ↦
      let rest =
        round_from_ge fuel a (2 * d) (omega arith)
          (halved_ge (2 ^ 52) a d p (two_53 (a / d) large)) in
      rw large (omega (arith, rest))
]

-- A larger value has no smaller double.
pub round_from_mono : (fuel a b d : ℕ) → 0 < d → a ≤ b → round_from fuel a d ≤ round_from fuel b d
unfolding round_from nearest
round_from_mono zero a b d p h = nearest_mono a b d p h
round_from_mono (suc fuel) a b d p h =
    let rest = round_from_mono fuel a b (2 * d) (omega arith) h in
    let order = div_mono a b d p h in
    elim (Bool-cases (ltb (b / d) (2 ^ 53))) [
      | inl small ↦
          rw (small, lt→ltb (a / d) (2 ^ 53) (omega (arith, ltb→lt (b / d) (2 ^ 53) small)))
            (nearest_mono a b d p h)
      | inr large ↦ elim (Bool-cases (ltb (a / d) (2 ^ 53))) [
        | inr both ↦ rw (large, both) (omega (arith, rest))
        | inl small ↦
            let top =
              round_from_ge fuel b (2 * d) (omega arith)
                (halved_ge (2 ^ 52) b d p (two_53 (b / d) large)) in
            rw (large, small)
              (omega (arith, top, nearer_bounds (a / d) (a % d) d, ltb→lt (a / d) (2 ^ 53) small))
      ]
    ]

pub round_mono : (a b d : ℕ) → 0 < d → a ≤ b → round a d ≤ round b d
unfolding round
round_mono a b d p h = round_from_mono max_halvings a b d p h

pub unit_pos : 0 < unit
unfolding unit
unit_pos = ltb→lt 0 unit refl

pub add_mono : (x y z : ℕ) → y ≤ z → add x y ≤ add x z
unfolding add
add_mono x y z h = round_mono (x + y) (x + z) 1 (omega arith) (omega arith)

pub sub_mono : (x y z : ℕ) → y ≤ z → sub x z ≤ sub x y
unfolding sub
sub_mono x y z h = round_mono (x - z) (x - y) 1 (omega arith) (omega arith)

pub mul_mono : (x y z : ℕ) → x ≤ y → mul x z ≤ mul y z
unfolding mul
mul_mono x y z h = round_mono (x * z) (y * z) unit unit_pos (mul-le-mul_right z h)

pub floor_mono : (x y : ℕ) → x ≤ y → floor x ≤ floor y
unfolding floor
floor_mono x y h = div_mono x y unit unit_pos h

pub hundredths_mono : (x y : ℕ) → x ≤ y → hundredths x ≤ hundredths y
unfolding hundredths
hundredths_mono x y h =
    div_mono (200 * x + unit) (200 * y + unit) (2 * unit) (omega (arith, unit_pos)) (omega arith)
