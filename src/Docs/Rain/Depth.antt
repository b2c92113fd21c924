-- ===== src/Docs/Rain/Depth.antt =====
-- What the depth of a drop does to it: nearer drops fall faster, are more opaque and larger.
use rainlogs.Prelude.{ℕ, ◌≤◌, ◌≡◌, refl, arith}
use rainlogs.Docs.Number.{below_one, literal, mul, floor, hundredths}
use rainlogs.Docs.Number.Rounding.{add_mono, sub_mono, mul_mono, floor_mono, hundredths_mono}
use rainlogs.Docs.Rain.{left_of, delay_of, duration_of, opacity_of, scale_of}

module _ (far near : ℕ) (h : far ≤ near) where
  duration_mono : duration_of near ≤ duration_of far
  unfolding duration_of
  duration_mono = add_mono _ _ _ (mul_mono _ _ _ (sub_mono _ _ _ h))

  opacity_mono : opacity_of far ≤ opacity_of near
  unfolding opacity_of
  opacity_mono = add_mono _ _ _ (mul_mono _ _ _ h)

  scale_mono : scale_of far ≤ scale_of near
  unfolding scale_of
  scale_mono = add_mono _ _ _ (mul_mono _ _ _ h)

-- Of two drops the nearer one takes no more hundredths of a second to fall, is at least as opaque, to
-- the hundredth, and is scaled at least as much: no rounding turns the order round.
pub depth_mono :
    (far near : ℕ)
    → far ≤ near
    → (hundredths (duration_of near) ≤ hundredths (duration_of far))
      × (hundredths (opacity_of far) ≤ hundredths (opacity_of near))
      × (scale_of far ≤ scale_of near)
depth_mono far near h = (
  hundredths_mono _ _ (duration_mono far near h),
  hundredths_mono _ _ (opacity_mono far near h),
  scale_mono far near h,
)

left_most : floor (mul below_one (literal 100 1)) ≡ 99
unfolding floor mul literal below_one
left_most = refl

pub left-le : (r : ℕ) → r ≤ below_one → left_of r ≤ 99
unfolding left_of
left-le r h = omega (arith, left_most, floor_mono _ _ (mul_mono r below_one (literal 100 1) h))

delay_most : hundredths (delay_of below_one) ≡ 500
unfolding hundredths delay_of below_one
delay_most = refl

delay_mono : (r s : ℕ) → r ≤ s → delay_of r ≤ delay_of s
unfolding delay_of
delay_mono r s h = mul_mono r s _ h

pub delay-le : (r : ℕ) → r ≤ below_one → hundredths (delay_of r) ≤ 500
delay-le r h = omega (
  arith,
  delay_most,
  hundredths_mono (delay_of r) (delay_of below_one) (delay_mono r below_one h),
)

ends :
    (hundredths (duration_of 0) ≡ 300)
    × (hundredths (duration_of below_one) ≡ 150)
    × (hundredths (opacity_of 0) ≡ 10)
    × (hundredths (opacity_of below_one) ≡ 40)
unfolding hundredths duration_of opacity_of below_one
ends = (refl, refl, refl, refl)

pub depth_bounds :
    (depth : ℕ)
    → depth ≤ below_one
    → (150 ≤ hundredths (duration_of depth))
      × (hundredths (duration_of depth) ≤ 300)
      × (10 ≤ hundredths (opacity_of depth))
      × (hundredths (opacity_of depth) ≤ 40)
depth_bounds depth h =
    let low = depth_mono 0 depth (omega arith) in
    let high = depth_mono depth below_one h in
    (omega (arith, ends), omega (arith, ends), omega (arith, ends), omega (arith, ends))
