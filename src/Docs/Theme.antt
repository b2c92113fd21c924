-- ===== src/Docs/Theme.antt =====
-- docs/.vitepress/theme/index.ts: the default theme of VitePress with a layout of its own.
--
-- An object is the list of its properties in order. What the default theme holds is an argument, and so
-- are the components; a function of the object is one of the values, made by `function`.
pub mod Layout
use mathlib.Core.Option
use rainlogs.Prelude.{
  Bool, true, false, Option, none, some, List, [], ◌∷◌, if◌then◌else◌, Bytes, bytes_eq, codes,
}

-- What Vue's h builds: a component alone, or with one slot, whose content is what its function returns.
pub data VNode (Component : Type 0) : Type 0 where
  alone : Component → VNode Component
  with_slot : Component → (name : Bytes) → VNode Component → VNode Component

module _ {V : Type 0} where
  unfoldable pub property : Bytes → List (Bytes × V) → Option V
  property key [] = none
  property key ((k, v) ∷ o) = if bytes_eq k key then some v else property key o

  -- A property of an object literal: written over where it is there already, in its place.
  unfoldable pub define : Bytes → V → List (Bytes × V) → List (Bytes × V)
  define key v [] = (key, v) ∷ []
  define key v ((k, w) ∷ o) = if bytes_eq k key then (k, v) ∷ o else (k, w) ∷ define key v o

  -- A spread into a new object.
  unfoldable pub spread : List (Bytes × V) → List (Bytes × V) → List (Bytes × V)
  unfolding define
  spread [] o = o
  spread ((k, v) ∷ p) o = spread p (define k v o)

-- h(DefaultTheme.Layout, null, { 'layout-top': () => h(Rain) })
abbrev pub with_rain : {Component : Type 0} → Component → Component → VNode Component
with_rain rain c = with_slot c (codes "layout-top") (alone rain)

module _ {V Component : Type 0} (default_theme : List (Bytes × V)) (as_component : V → Component)
    (rain : Component) where
  -- Layout(), where the default theme has a layout.
  unfoldable pub layout : Option (VNode Component)
  unfolding property
  layout =
      Option.map (λ v. with_rain rain (as_component v)) (property (codes "Layout") default_theme)

  -- The exported theme, given the value that the method Layout is.
  unfoldable pub theme : (function : Option (VNode Component) → V) → List (Bytes × V)
  unfolding spread define layout
  theme function = define (codes "Layout") (function layout) (spread default_theme [])
