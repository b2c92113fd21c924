-- ===== src/Docs/Rain.antt =====
-- docs/.vitepress/theme/Rain.vue: its script and its template.
--
-- Vue's `ref`, `onMounted` and renderer are not here: a component is its state, what the hook makes of
-- it, and the tree that the template gives for it. Math.random is a function from the number of the
-- call to a double from 0 up to 1, not 1 itself. The state of the script carries the number of calls.
pub mod Depth
pub mod Drops
pub mod Fall
pub mod Sheet
pub mod Streak
use rainlogs.Prelude.{
  ℕ, zero, suc, ◌+◌, ◌≤◌, Bool, true, false, Option, none, some, List, [], ◌∷◌, ◌++◌, map,
  if◌then◌else◌, Bytes, codes,
}
use rainlogs.Calendar.{decimal}
use rainlogs.Docs.Number.{below_one, literal, add, sub, mul, floor, to_fixed, to_string}

pub record Math : Type 0 where
  pub random : ℕ → ℕ
  pub random_le : (call : ℕ) → random call ≤ below_one

pub record DropStyle : Type 0 where
  pub left : Bytes
  pub animation_delay : Bytes
  pub animation_duration : Bytes
  pub opacity : Bytes
  pub transform : Bytes

pub record Drop : Type 0 where
  pub id : ℕ
  pub style : DropStyle

pub record State : Type 0 where
  pub mounted : Bool
  pub drops : List Drop

-- Math.floor(r * 100)
unfoldable pub left_of : ℕ → ℕ
unfolding mul literal floor
left_of r = floor (mul r (literal 100 1))

-- r * 5
unfoldable pub delay_of : ℕ → ℕ
unfolding mul literal
delay_of r = mul r (literal 5 1)

-- 1.5 + (1 - depth) * 1.5
unfoldable pub duration_of : ℕ → ℕ
unfolding add sub mul literal
duration_of depth = add (literal 3 2) (mul (sub (literal 1 1) depth) (literal 3 2))

-- 0.1 + depth * 0.3
unfoldable pub opacity_of : ℕ → ℕ
unfolding add mul literal
opacity_of depth = add (literal 1 10) (mul depth (literal 3 10))

-- 0.8 + depth * 0.4
unfoldable pub scale_of : ℕ → ℕ
unfolding add mul literal
scale_of depth = add (literal 8 10) (mul depth (literal 4 10))

-- The style of a drop, from the three numbers that it takes.
unfoldable pub drop_style : (r s depth : ℕ) → DropStyle
unfolding left_of delay_of duration_of opacity_of scale_of
drop_style r s depth = record {
  left = decimal (left_of r) ++ codes "%";
  animation_delay = codes "-" ++ (to_fixed (delay_of s) ++ codes "s");
  animation_duration = to_fixed (duration_of depth) ++ codes "s";
  opacity = to_fixed (opacity_of depth);
  transform = codes "scale(" ++ (to_string (scale_of depth) ++ codes ")");
}

-- The tree of the page that the template gives.
pub record DropDiv : Type 0 where
  pub key : ℕ
  pub class : Bytes
  pub style : DropStyle

pub record Container : Type 0 where
  pub class : Bytes
  pub aria_hidden : Bytes
  pub children : List DropDiv

module _ (math : Math) where
  -- The callback of Array.from, at index i after some calls of Math.random.
  unfoldable pub new_drop : (i calls : ℕ) → Drop × ℕ
  new_drop i calls = (
    record {
      id = i;
      style = drop_style (math.random calls) (math.random (calls + 1)) (math.random (calls + 2));
    },
    calls + 3,
  )

  -- Array.from({ length }, callback), from index i on.
  unfoldable pub array_from : (length i calls : ℕ) → List Drop × ℕ
  array_from zero i calls = ([], calls)
  array_from (suc n) i calls =
      let (drop, calls') = new_drop i calls in
      let (drops, calls'') = array_from n (suc i) calls' in (drop ∷ drops, calls'')

  -- onMounted's hook.
  unfoldable pub on_mounted : ℕ → State → State × ℕ
  on_mounted calls state =
      let (drops, calls') = array_from 60 0 calls in
      (record { mounted = true; drops = drops }, calls')

abbrev pub setup : State
setup = record { mounted = false; drops = [] }

-- The div of a drop: `v-for="d in drops"`.
abbrev pub drop_div : Drop → DropDiv
drop_div d = record { key = d.id; class = codes "drop"; style = d.style }

-- The template: nothing before `mounted`.
unfoldable pub render : State → Option Container
render state =
    if state.mounted
    then some (record {
      class = codes "rain-container";
      aria_hidden = codes "true";
      children = map drop_div state.drops;
    })
    else none
