-- ===== src/Docs/Rain/Streak.antt =====
-- docs/.vitepress/theme/Rain.vue: the streak of .drop, its size and its gradient in the two modes.
--
-- A position along the streak is a number of steps from its upper end, `res` of them to a percent. An
-- alpha is in tenths; between two stops it is a fraction whose denominator is the way between them.
pub mod Faint
use rainlogs.Prelude.{ℕ, ◌+◌, ◌-◌, ◌*◌, List, [], ◌∷◌, leb, if◌then◌else◌}

pub record Stop : Type 0 where
  pub red : ℕ
  pub green : ℕ
  pub blue : ℕ
  pub alpha : ℕ
  pub at : ℕ

pub data Mode : Type 0 where
  light dark : Mode

-- The background of .drop, and of .dark .drop.
abbrev pub gradient : Mode → List Stop
gradient light =
    record { red = 255; green = 255; blue = 255; alpha = 0; at = 0 }
    ∷ record { red = 255; green = 255; blue = 255; alpha = 4; at = 50 }
    ∷ record { red = 255; green = 255; blue = 255; alpha = 0; at = 100 }
    ∷ []
gradient dark =
    record { red = 100; green = 116; blue = 139; alpha = 0; at = 0 }
    ∷ record { red = 56; green = 189; blue = 248; alpha = 3; at = 50 }
    ∷ record { red = 100; green = 116; blue = 139; alpha = 0; at = 100 }
    ∷ []

-- The numerator of the alpha between two stops.
abbrev pub between : (res : ℕ) → Stop → Stop → (position : ℕ) → ℕ
between res s t position = s.alpha * (t.at * res - position) + t.alpha * (position - s.at * res)

-- linear-gradient: the numerator of the alpha at a position.
unfoldable pub alpha_at : (res : ℕ) → List Stop → (position : ℕ) → ℕ
alpha_at res [] position = 0
alpha_at res (s ∷ []) position = s.alpha
alpha_at res (s ∷ t ∷ stops) position =
    if leb position (t.at * res)
    then between res s t position
    else alpha_at res (t ∷ stops) position

-- width: 1px; height: 30vh
abbrev pub streak_length : ℕ
streak_length = 30
