-- ===== src/Paths.antt =====
-- Join, Clean and Base of path/filepath on Unix.
pub mod Base
use rainlogs.Prelude.{
  ℕ, ◌≡◌, Bool, true, false, ◌||◌, ◌==◌, List, [], ◌∷◌, ◌++◌, if◌then◌else◌, Bytes, codes, bytes_eq,
  is_empty,
}

unfoldable pub push_byte : ℕ → List Bytes → List Bytes
push_byte c [] = (c ∷ []) ∷ []
push_byte c (e ∷ es) = (c ∷ e) ∷ es

-- The elements between slashes, empty ones too.
unfoldable pub split_slash : Bytes → List Bytes
unfolding push_byte
split_slash [] = [] ∷ []
split_slash (c ∷ s) = let rest = split_slash s in if c == b'/' then [] ∷ rest else push_byte c rest

-- `..`: the element before it goes, if there is one that is not itself a step up.
unfoldable pub back : (rooted : Bool) → List Bytes → List Bytes
back true [] = []
back false [] = codes ".." ∷ []
back rooted (top ∷ stack) = if bytes_eq top (codes "..") then codes ".." ∷ top ∷ stack else stack

unfoldable pub place : (rooted : Bool) → Bytes → List Bytes → List Bytes
unfolding back
place rooted e stack =
    if is_empty e || bytes_eq e (codes ".")
    then stack
    else if bytes_eq e (codes "..")
    then back rooted stack
    else e ∷ stack

unfoldable pub resolve : (rooted : Bool) → List Bytes → List Bytes → List Bytes
unfolding place
resolve rooted stack [] = stack
resolve rooted stack (e ∷ es) = resolve rooted (place rooted e stack) es

-- The elements, the last one first, with a slash between two.
unfoldable pub slashed : List Bytes → Bytes
slashed [] = []
slashed (e ∷ []) = e
slashed (e ∷ f ∷ es) = slashed (f ∷ es) ++ (b'/' ∷ e)

unfoldable pub finish : (rooted : Bool) → List Bytes → Bytes
unfolding slashed
finish true stack = b'/' ∷ slashed stack
finish false [] = codes "."
finish false (e ∷ es) = slashed (e ∷ es)

abbrev pub is_rooted : Bytes → Bool
is_rooted [] = false
is_rooted (c ∷ p) = c == b'/'

unfoldable pub clean : Bytes → Bytes
unfolding split_slash resolve finish
clean p = finish (is_rooted p) (resolve (is_rooted p) [] (split_slash p))

-- strings.Join with a slash.
unfoldable pub with_slashes : Bytes → List Bytes → Bytes
with_slashes e [] = e
with_slashes e (f ∷ es) = e ++ (b'/' ∷ with_slashes f es)

-- Join: the empty elements in front are passed over, and the rest is cleaned.
unfoldable pub join : List Bytes → Bytes
unfolding clean with_slashes
join [] = []
join (e ∷ es) = let rest = join es in if is_empty e then rest else clean (with_slashes e es)
