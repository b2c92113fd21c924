-- ===== src/Docs/Rain/Streak/Faint.antt =====
-- How faint a streak is.
use rainlogs.Prelude.{ℕ, ◌*◌, ◌≤◌, ◌≡◌, arith}
use native.Mathlib.Nat.{mul-le-mul}
use rainlogs.Docs.Rain.{DropStyle}
use rainlogs.Docs.Rain.Drops.{InRange}
use rainlogs.Docs.Rain.Streak.{Mode, light, dark, gradient, alpha_at}

alpha_at-le :
    (res position : ℕ) (mode : Mode)
    → position ≤ 100 * res
    → alpha_at res (gradient mode) position ≤ 4 * (50 * res)
unfolding alpha_at
alpha_at-le res position light h = ground arith
alpha_at-le res position dark h = ground arith

alpha_at-ends :
    (res : ℕ) (mode : Mode)
    → (alpha_at res (gradient mode) 0 ≡ 0) × (alpha_at res (gradient mode) (100 * res) ≡ 0)
unfolding alpha_at
alpha_at-ends res light = ground arith
alpha_at-ends res dark = ground arith

-- A streak with an opacity in range fades out at both ends and covers nowhere more than 16 percent of
-- what lies behind it, in either mode: its opacity, in hundredths, times its alpha, in tenths.
alpha_at_faint :
    (s : DropStyle) (drop : InRange s) (mode : Mode) (res position : ℕ)
    → position ≤ 100 * res
    → (alpha_at res (gradient mode) 0 ≡ 0)
      × (alpha_at res (gradient mode) (100 * res) ≡ 0)
      × (drop.opacity * alpha_at res (gradient mode) position ≤ 160 * (50 * res))
alpha_at_faint s drop mode res position h =
    let (top, bottom) = alpha_at-ends res mode in
    let most = mul-le-mul drop.opacity_range.1 (alpha_at-le res position mode h) in
    (top, bottom, omega (arith, most))
