-- ===== src/Docs/Site/Links.antt =====
-- The links of the site.
use rainlogs.Prelude.{
  ◌≡◌, refl, Bool, true, false, not, ◌&&◌, ◌||◌, List, [], ◌∷◌, ◌++◌, Bytes, bytes_eq, codes,
}
use rainlogs.Docs.Site.{Link, Group, nav, sidebar}

is_among : Bytes → List Bytes → Bool
is_among l [] = false
is_among l (m ∷ ms) = bytes_eq l m || is_among l ms

links : List Link → List Bytes
links [] = []
links (l ∷ ls) = l.link ∷ links ls

pages : List Group → List Bytes
pages [] = []
pages (g ∷ gs) = links g.items ++ pages gs

all_among : List Bytes → List Bytes → Bool
all_among [] ms = true
all_among (l ∷ ls) ms = is_among l ms && all_among ls ms

are_distinct : List Bytes → Bool
are_distinct [] = true
are_distinct (l ∷ ls) = not (is_among l ls) && are_distinct ls

-- Every link of the bar leads home or to a page of the sidebar.
nav_links : all_among (links nav) (codes "/" ∷ pages sidebar) ≡ true
unfolding all_among is_among links pages
nav_links = refl

-- The sidebar has no page twice.
sidebar_pages : are_distinct (pages sidebar) ≡ true
unfolding are_distinct is_among links pages
sidebar_pages = refl
