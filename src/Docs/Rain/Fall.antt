-- ===== src/Docs/Rain/Fall.antt =====
-- docs/.vitepress/theme/Rain.vue: the animation of its style sheet.
--
-- A time is a number of ticks, so many to a hundredth of a second. A length is in vh, from 30vh above
-- the container's top edge, where the fall starts.
pub mod Cycle
use rainlogs.Prelude.{ℕ, ◌+◌, ◌*◌, ◌%◌, Option, none, some}

pub data Property : Type 0 where
  left opacity transform : Property

-- translateY at a fraction of a vh below the start.
pub data Value : Type 0 where
  fallen : (numerator denominator : ℕ) → Value

-- @keyframes fall: from -30vh to 130vh.
abbrev pub fall_from : ℕ
fall_from = 30

abbrev pub fall_to : ℕ
fall_to = 130

-- The ticks since the last start of a cycle: `linear infinite`, with a negative delay.
unfoldable pub phase : (cycle delay elapsed : ℕ) → ℕ
phase cycle delay elapsed = (elapsed + delay) % cycle

-- What the keyframes declare at that moment.
unfoldable pub animated : (cycle delay elapsed : ℕ) → Property → Option Value
unfolding phase
animated cycle delay elapsed transform =
    some (fallen ((fall_from + fall_to) * phase cycle delay elapsed) cycle)
animated cycle delay elapsed left = none
animated cycle delay elapsed opacity = none
