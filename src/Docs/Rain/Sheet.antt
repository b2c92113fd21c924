-- ===== src/Docs/Rain/Sheet.antt =====
-- docs/.vitepress/theme/Rain.vue: the box of .rain-container, which its style sheet turns by 15 degrees
-- about its centre.
--
-- The box is given by percents of the viewport. The sine and the cosine of 15 degrees, irrational
-- numbers, are known between two fractions of 10000: 0.2588 to 0.2589, and 0.9659 to 0.9660.
pub mod Cover
use rainlogs.Prelude.{ℕ, ◌+◌, ◌*◌, ◌/◌}

-- In pixels.
pub record Viewport : Type 0 where
  pub width : ℕ
  pub height : ℕ

-- top: -20vh; left: -20vw
abbrev pub outside : ℕ
outside = 20

-- width: 140vw; height: 140vh
abbrev pub extent : ℕ
extent = 140

abbrev pub whole : ℕ
whole = 10000

abbrev pub sine_low : ℕ
sine_low = 2588

abbrev pub sine_high : ℕ
sine_high = 2589

abbrev pub cosine_low : ℕ
cosine_low = 9659

abbrev pub cosine_high : ℕ
cosine_high = 9660

-- Half a side of the box, for the same side of the viewport, times 100 * 10000.
unfoldable pub half : ℕ → ℕ
half side = extent * side * whole / 2

-- How far a corner of the viewport lies from the centre along a side of the turned box, in the same
-- unit: half the viewport's side along it by the cosine, half the other one by the sine.
unfoldable pub corner : (cosine sine along across : ℕ) → ℕ
corner cosine sine along across = (100 * along * cosine + 100 * across * sine) / 2
