-- ===== src/Docs/Theme/Layout.antt =====
-- What the exported theme holds.
use rainlogs.Prelude.{
  ◌≡◌, refl, ap, sym, ◌∙◌, inl, inr, arith, Option, none, some, List, [], ◌∷◌, if◌then◌else◌, Bytes,
  bytes_eq, bytes_eq_iff, codes, Bool-cases,
}
use rainlogs.Docs.Theme.{VNode, with_rain, property, define, spread, layout, theme}

module _ {V : Type 0} where
  property-define :
      (key k : Bytes) (v : V) (o : List (Bytes × V))
      → property key (define k v o) ≡ (if bytes_eq k key then some v else property key o)
  unfolding property define
  property-define key k v [] = refl
  property-define key k v ((j, w) ∷ o) =
      ground
        (arith, bytes_eq_iff j k, bytes_eq_iff j key, bytes_eq_iff k key, property-define key k v o)

  -- No key stands twice, as in every object.
  abbrev pub IsObject : List (Bytes × V) → Type 0
  IsObject [] = Unit
  IsObject ((k, v) ∷ o) = (property k o ≡ none) × IsObject o

  abbrev or_else : Option V → Option V → Option V
  or_else none d = d
  or_else (some v) d = some v

  property-spread :
      (key : Bytes) (p o : List (Bytes × V))
      → IsObject p
      → property key (spread p o) ≡ or_else (property key p) (property key o)
  unfolding property spread
  property-spread key [] o h = refl
  property-spread key ((k, v) ∷ p) o h =
      let ih = property-spread key p (define k v o) h.1 in
      let added = property-define key k v o in
      elim (Bool-cases (bytes_eq k key)) [
        | inl hit ↦
            let same : k ≡ key = (bytes_eq_iff k key).0 hit in
            rw (hit) (
              ih
              ∙ ap (λ r. or_else r (property key (define k v o)))
                  (ap (λ j. property j p) (sym same) ∙ h.0)
              ∙ added
              ∙ rw hit refl)
        | inr miss ↦ rw miss (ih ∙ ap (or_else (property key p)) (added ∙ rw miss refl))
      ]

  or_else-none : (r : Option V) → or_else r none ≡ r
  or_else-none none = refl
  or_else-none (some v) = refl

  property-spread_nil :
      (key : Bytes) (p : List (Bytes × V))
      → IsObject p
      → property key (spread p []) ≡ property key p
  unfolding property
  property-spread_nil key p h = property-spread key p [] h ∙ or_else-none (property key p)

module _ {V Component : Type 0} (default_theme : List (Bytes × V)) (as_component : V → Component)
    (rain : Component) (function : Option (VNode Component) → V) where
  -- The exported theme has the default theme's value at every key but Layout, where it has a function
  -- whose result is the default theme's layout with the rain alone in its slot layout-top.
  property-theme :
      (key : Bytes) (v : V)
      → IsObject default_theme
      → property (codes "Layout") default_theme ≡ some v
      → property key (theme default_theme as_component rain function) ≡ (
          if bytes_eq (codes "Layout") key
          then some (function (some (with_rain rain (as_component v))))
          else property key default_theme)
  unfolding theme layout
  property-theme key v h has =
      property-define key (codes "Layout") _ (spread default_theme [])
      ∙ rw (has, property-spread_nil key default_theme h) refl
