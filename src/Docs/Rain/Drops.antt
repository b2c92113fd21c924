-- ===== src/Docs/Rain/Drops.antt =====
-- The drops that the hook makes, and the page before it and after.
use rainlogs.Prelude.{
  ℕ, zero, suc, ◌+◌, ◌*◌, ◌≤◌, ◌≡◌, refl, ap, ◌∙◌, arith, none, some, List, [], ◌∷◌, ◌++◌, map, All,
  codes,
}
use rainlogs.Calendar.{decimal}
use rainlogs.Docs.Number.{below_one, hundredths, to_fixed, to_fixed_text}
use rainlogs.Docs.Rain.{
  Math, DropStyle, Drop, Container, left_of, delay_of, duration_of, opacity_of, drop_style,
  new_drop, array_from, on_mounted, setup, drop_div, render,
}
use rainlogs.Docs.Rain.Depth.{left-le, delay-le, depth_bounds}

-- A style whose numbers are in their ranges: the left edge in percent, the times in hundredths of a
-- second, the opacity in hundredths.
pub record InRange (s : DropStyle) : Type 0 where
  pub left : ℕ
  pub delay : ℕ
  pub duration : ℕ
  pub opacity : ℕ
  pub left_text : s.left ≡ decimal left ++ codes "%"
  pub delay_text : s.animation_delay ≡ codes "-" ++ (to_fixed_text delay ++ codes "s")
  pub duration_text : s.animation_duration ≡ to_fixed_text duration ++ codes "s"
  pub opacity_text : s.opacity ≡ to_fixed_text opacity
  pub left_range : left ≤ 99
  pub delay_range : delay ≤ 500
  pub duration_range : (150 ≤ duration) × (duration ≤ 300)
  pub opacity_range : (10 ≤ opacity) × (opacity ≤ 40)

pub drop_style-InRange :
    (r s depth : ℕ)
    → r ≤ below_one
    → s ≤ below_one
    → depth ≤ below_one
    → InRange (drop_style r s depth)
unfolding drop_style to_fixed
drop_style-InRange r s depth hr hs hd =
    let (slow, fast, faint, clear) = depth_bounds depth hd in
    record {
      left = left_of r;
      delay = hundredths (delay_of s);
      duration = hundredths (duration_of depth);
      opacity = hundredths (opacity_of depth);
      left_text = refl;
      delay_text = refl;
      duration_text = refl;
      opacity_text = refl;
      left_range = left-le r hr;
      delay_range = delay-le s hs;
      duration_range = (slow, fast);
      opacity_range = (faint, clear);
    }

-- n numbers from i on.
abbrev pub count_from : (i n : ℕ) → List ℕ
count_from i zero = []
count_from i (suc n) = i ∷ count_from (suc i) n

module _ (math : Math) where
  array_from-InRange : (n i calls : ℕ) → All (λ d. InRange d.style) (array_from math n i calls).0
  unfolding array_from new_drop
  array_from-InRange zero i calls = tt
  array_from-InRange (suc n) i calls = (
    drop_style-InRange _ _ _ (math.random_le calls) (math.random_le (calls + 1))
        (math.random_le (calls + 2)),
    array_from-InRange n (suc i) (calls + 3),
  )

  array_from-count_from :
      (n i calls : ℕ)
      → (map (λ d. d.id) (array_from math n i calls).0 ≡ count_from i n)
        × ((array_from math n i calls).1 ≡ calls + 3 * n)
  unfolding array_from new_drop
  array_from-count_from zero i calls = (refl, omega arith)
  array_from-count_from (suc n) i calls =
      let (ids, all) = array_from-count_from n (suc i) (calls + 3) in
      (ap (λ l. i ∷ l) ids, omega (arith, all))

map-drop_div : (ds : List Drop) → map (λ d. d.key) (map drop_div ds) ≡ map (λ d. d.id) ds
map-drop_div [] = refl
map-drop_div (d ∷ ds) = ap (λ l. d.id ∷ l) (map-drop_div ds)

All-drop_div :
    (ds : List Drop) → All (λ d. InRange d.style) ds → All (λ d. InRange d.style) (map drop_div ds)
All-drop_div [] h = tt
All-drop_div (d ∷ ds) h = (h.0, All-drop_div ds h.1)

-- Before the hook the page shows nothing of the rain. After it, it shows 60 divs with the keys 0 to 59
-- in order, for which Math.random was called 180 times, and in every one of them the style's numbers
-- are in range: the left edge from 0% to 99%, the delay from -5.00s to 0.00s, the duration from 1.50s
-- to 3.00s and the opacity from 0.10 to 0.40, each written with its digits.
pub render-on_mounted :
    (math : Math) (calls : ℕ)
    → (render setup ≡ none)
      × (c : Container) × (render (on_mounted math calls setup).0 ≡ some c)
      × (map (λ d. d.key) c.children ≡ count_from 0 60)
      × All (λ d. InRange d.style) c.children
      × ((on_mounted math calls setup).1 ≡ calls + 180)
unfolding render on_mounted
render-on_mounted math calls =
    let drops = (array_from math 60 0 calls).0 in
    let (ids, all) = array_from-count_from math 60 0 calls in
    (
      refl,
      _,
      refl,
      map-drop_div drops ∙ ids,
      All-drop_div drops (array_from-InRange math 60 0 calls),
      omega (arith, all),
    )
