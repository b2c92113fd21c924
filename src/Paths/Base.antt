-- ===== src/Paths/Base.antt =====
-- The last element of a joined path.
use rainlogs.Prelude.{
  ℕ, ◌≡◌, refl, sym, ap, ◌∙◌, inl, inr, arith, Bool, true, false, ◌||◌, ◌==◌, List, [], ◌∷◌, ◌++◌,
  append_assoc, Bytes, codes, bytes_eq, is_empty, Bool-cases, All,
}
use rainlogs.Paths.{
  push_byte, split_slash, place, resolve, slashed, finish, is_rooted, clean, with_slashes, join,
}

abbrev last : List Bytes → Bytes
last [] = []
last (e ∷ []) = e
last (e ∷ f ∷ es) = last (f ∷ es)

-- What stands after the last slash.
unfoldable pub last_element : Bytes → Bytes
last_element p = last (split_slash p)

last-append : (es : List Bytes) (e : Bytes) → last (es ++ (e ∷ [])) ≡ e
last-append [] e = refl
last-append (d ∷ []) e = refl
last-append (d ∷ f ∷ es) e = last-append (f ∷ es) e

-- An element that Clean keeps as it is.
pub record IsPlain (e : Bytes) : Type 0 where
  pub whole : split_slash e ≡ e ∷ []
  pub kept : (is_empty e || bytes_eq e (codes ".")) ≡ false
  pub no_step : bytes_eq e (codes "..") ≡ false

data Parts : List Bytes → Type 0 where
  parts : (e : Bytes) (es : List Bytes) → Parts (e ∷ es)

push_byte-Parts : (c : ℕ) (es : List Bytes) → Parts (push_byte c es)
unfolding push_byte
push_byte-Parts c [] = parts _ _
push_byte-Parts c (e ∷ es) = parts _ _

split_slash-Parts : (p : Bytes) → Parts (split_slash p)
unfolding split_slash
split_slash-Parts [] = parts [] []
split_slash-Parts (c ∷ p) = elim (Bool-cases (c == b'/')) [
  | inl slash ↦ rw slash (parts [] _)
  | inr other ↦ rw other (push_byte-Parts c _)
]

push_byte-append :
    (c : ℕ) (es fs : List Bytes) → Parts es → push_byte c (es ++ fs) ≡ push_byte c es ++ fs
unfolding push_byte
push_byte-append c _ fs (parts e es) = refl

split_slash-append : (a b : Bytes) → split_slash (a ++ (b'/' ∷ b)) ≡ split_slash a ++ split_slash b
unfolding split_slash
split_slash-append [] b = refl
split_slash-append (c ∷ a) b = elim (Bool-cases (c == b'/')) [
  | inl slash ↦ rw slash (ap (λ es. [] ∷ es) (split_slash-append a b))
  | inr other ↦ rw other (
      ap (push_byte c) (split_slash-append a b)
      ∙ push_byte-append c (split_slash a) (split_slash b) (split_slash-Parts a))
]

-- After a slash, a plain element is the last one.
last_element-append : (a e : Bytes) → IsPlain e → last_element (a ++ (b'/' ∷ e)) ≡ e
unfolding last_element
last_element-append a e plain =
    ap last (split_slash-append a e ∙ ap (λ es. split_slash a ++ es) plain.whole)
    ∙ last-append (split_slash a) e

resolve-append :
    (rooted : Bool) (stack es : List Bytes) (e : Bytes)
    → IsPlain e
    → resolve rooted stack (es ++ (e ∷ [])) ≡ e ∷ resolve rooted stack es
unfolding resolve place
resolve-append rooted stack [] e plain = rw (plain.kept, plain.no_step) refl
resolve-append rooted stack (d ∷ es) e plain =
    resolve-append rooted (place rooted d stack) es e plain

last_plain : (e : Bytes) → IsPlain e → last_element e ≡ e
unfolding last_element
last_plain e plain = ap last plain.whole

last_element-finish :
    (rooted : Bool) (stack : List Bytes) (e : Bytes)
    → IsPlain e
    → last_element (finish rooted (e ∷ stack)) ≡ e
unfolding finish slashed
last_element-finish true [] e plain = last_element-append [] e plain
last_element-finish true (d ∷ stack) e plain =
    last_element-append (b'/' ∷ slashed (d ∷ stack)) e plain
last_element-finish false [] e plain = last_plain e plain
last_element-finish false (d ∷ stack) e plain = last_element-append (slashed (d ∷ stack)) e plain

-- Join leaves a plain element that stands last.
last_element-clean :
    (p : Bytes) (es : List Bytes) (e : Bytes)
    → IsPlain e
    → split_slash p ≡ es ++ (e ∷ [])
    → last_element (clean p) ≡ e
unfolding clean
last_element-clean p es e plain split =
    ap (λ s. last_element (finish (is_rooted p) (resolve (is_rooted p) [] s))) split
    ∙ ap (λ s. last_element (finish (is_rooted p) s)) (resolve-append (is_rooted p) [] es e plain)
    ∙ last_element-finish (is_rooted p) _ e plain

split_slash-with_slashes :
    (d e : Bytes) (es : List Bytes)
    → IsPlain e
    → (xs : List Bytes) × (split_slash (with_slashes d (es ++ (e ∷ []))) ≡ xs ++ (e ∷ []))
unfolding with_slashes
split_slash-with_slashes d e [] plain =
    (split_slash d, split_slash-append d e ∙ ap (λ ys. split_slash d ++ ys) plain.whole)
split_slash-with_slashes d e (f ∷ es) plain =
    let (xs, split) = split_slash-with_slashes f e es plain in
    (
      split_slash d ++ xs,
      split_slash-append d _
          ∙ ap (λ ys. split_slash d ++ ys) split
          ∙ sym (append_assoc (split_slash d) xs (e ∷ [])),
    )

filled : (a b : Bool) → (a || b) ≡ false → a ≡ false
filled false b h = refl
filled true b h = h

split_slash-whole : (e : Bytes) → All (λ c. (c == b'/') ≡ false) e → split_slash e ≡ e ∷ []
unfolding split_slash push_byte
split_slash-whole [] h = refl
split_slash-whole (c ∷ e) h = rw h.0 (ap (push_byte c) (split_slash-whole e h.1))

-- A long name without a slash is a plain element.
pub long-IsPlain :
    (c d f : ℕ) (e : Bytes)
    → All (λ c. (c == b'/') ≡ false) (c ∷ d ∷ f ∷ e)
    → IsPlain (c ∷ d ∷ f ∷ e)
long-IsPlain c d f e h = record {
  whole = split_slash-whole (c ∷ d ∷ f ∷ e) h;
  kept = ground arith;
  no_step = ground arith;
}

-- Whatever stands before it, a plain element is the last one of a joined path.
pub last_element-join :
    (es : List Bytes) (e : Bytes) → IsPlain e → last_element (join (es ++ (e ∷ []))) ≡ e
unfolding join with_slashes
last_element-join [] e plain =
    rw (filled (is_empty e) _ plain.kept) (last_element-clean e [] e plain plain.whole)
last_element-join (d ∷ es) e plain = elim (Bool-cases (is_empty d)) [
  | inl empty ↦ rw empty (last_element-join es e plain)
  | inr given ↦
      let (xs, split) = split_slash-with_slashes d e es plain in
      rw given (last_element-clean (with_slashes d (es ++ (e ∷ []))) xs e plain split)
]
