-- ===== src/Docs/Rain/Sheet/Cover.antt =====
-- Which viewports the turned box covers.
use rainlogs.Prelude.{◌+◌, ◌*◌, ◌≤◌, ◌<◌, ◌≡◌, arith}
use rainlogs.Docs.Rain.Sheet.{
  Viewport, outside, extent, sine_low, sine_high, cosine_low, cosine_high, half, corner,
}

-- The box is centred in the viewport.
centred : 2 * outside + 100 ≡ extent
centred = omega arith

-- The turned box covers the corners of a viewport from 3:5 to 5:3.
corner-le-half :
    (v : Viewport)
    → 3 * v.height ≤ 5 * v.width
    → 3 * v.width ≤ 5 * v.height
    → (corner cosine_high sine_high v.height v.width ≤ half v.height)
      × (corner cosine_high sine_high v.width v.height ≤ half v.width)
unfolding corner half
corner-le-half v tall wide = (omega arith, omega arith)

-- A viewport of 16:9 or wider has two corners above and below the box, where no drop falls.
half-lt-corner :
    (v : Viewport)
    → 0 < v.height
    → 16 * v.height ≤ 9 * v.width
    → half v.height < corner cosine_low sine_low v.height v.width
unfolding corner half
half-lt-corner v some wide = omega arith
