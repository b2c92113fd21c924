-- ===== src/Examples/RainDrops.antt =====
-- Drops of the rain, as JavaScript prints them, and applications of the theorems about them.
use rainlogs.Prelude.{ℕ, ◌^◌, ◌≤◌, ◌≡◌, arith, refl, none, some, map, All, codes, leb→le}
use rainlogs.Calendar.{decimal}
use rainlogs.Docs.Number.{below_one, literal, hundredths, to_fixed, to_string}
use rainlogs.Docs.Rain.{
  Math, DropStyle, Container, drop_style, duration_of, opacity_of, scale_of, setup, on_mounted,
  render,
}
use rainlogs.Docs.Rain.Depth.{depth_mono}
use rainlogs.Docs.Rain.Drops.{InRange, drop_style-InRange, count_from, render-on_mounted}
use rainlogs.Docs.Rain.Sheet.{Viewport}

-- 1/2
abbrev middle : ℕ
middle = 2 ^ 1073

abbrev middle_style : DropStyle
middle_style = record {
  left = codes "0%";
  animation_delay = codes "-2.50s";
  animation_duration = codes "2.25s";
  opacity = codes "0.25";
  transform = codes "scale(1)";
}

-- A drop of depth 1/2 at the left edge.
middle_drop : drop_style 0 middle middle ≡ middle_style
unfolding drop_style decimal to_fixed to_string
middle_drop = refl

third_scale : to_string (scale_of (literal 1 3)) ≡ codes "0.9333333333333333"
unfolding to_string scale_of literal
third_scale = refl

depth_mono_example :
    (hundredths (duration_of middle) ≤ hundredths (duration_of 0))
    × (hundredths (opacity_of 0) ≤ hundredths (opacity_of middle))
    × (scale_of 0 ≤ scale_of middle)
depth_mono_example = depth_mono 0 middle (omega arith)

middle_le : (call : ℕ) → middle ≤ below_one
unfolding below_one
middle_le call = leb→le middle below_one refl

-- A source that yields 1/2 for ever.
abbrev math : Math
math = record { random = λ _. middle; random_le = middle_le }

render-on_mounted_example :
    (render setup ≡ none)
    × (c : Container) × (render (on_mounted math 0 setup).0 ≡ some c)
    × (map (λ d. d.key) c.children ≡ count_from 0 60)
    × All (λ d. InRange d.style) c.children
    × ((on_mounted math 0 setup).1 ≡ 180)
render-on_mounted_example = render-on_mounted math 0

abbrev tablet : Viewport
tablet = record { width = 1024; height = 768 }

abbrev wide_screen : Viewport
wide_screen = record { width = 1920; height = 1080 }

middle_drop-InRange : InRange (drop_style 0 middle middle)
middle_drop-InRange = drop_style-InRange 0 middle middle (omega arith) (middle_le 0) (middle_le 0)
