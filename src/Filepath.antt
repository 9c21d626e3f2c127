-- ===== src/Filepath.antt =====
-- What the program uses of the package path/filepath, on a Unix system: Clean, Dir, Base, Join and
-- Rel. ToSlash and FromSlash are the identity there, and the separator is a slash.
pub mod Laws
pub mod Dirs
use gopls_lazy.Base.{
  ℕ, Bool, false, if◌then◌else◌, Str, str, str_eq, has_prefix, split, join, List, [], ◌∷◌, ◌++◌,
  ◌||◌, ◌==◌, ◌&&◌, Option, none, some, init, last?, true, not, is_some,
}

abbrev pub sep : Str
sep = str "/"

unfoldable pub has_byte : ℕ → Str → Bool
has_byte c [] = false
has_byte c (x ∷ xs) = x == c || has_byte c xs

-- The path starts with a slash.
unfoldable pub rooted : Str → Bool
rooted s = has_prefix s sep

-- A path element "..": the last element goes, where there is one that is not ".." itself.
unfoldable pub up : Bool → List Str → List Str
up abs acc = elim (last? acc) [
  | none ↦ if abs then acc else str ".." ∷ []
  | some l ↦ if str_eq l (str "..") then acc ++ str ".." ∷ [] else init acc
]

unfoldable pub push : Bool → List Str → Str → List Str
push abs acc p =
    if str_eq p [] || str_eq p (str ".")
    then acc
    else if str_eq p (str "..")
    then up abs acc
    else acc ++ p ∷ []

unfoldable pub normalise : Bool → List Str → List Str → List Str
normalise abs acc [] = acc
normalise abs acc (p ∷ ps) = normalise abs (push abs acc p) ps

-- The absolute path with the given elements.
unfoldable pub absolute : List Str → Str
absolute ps = sep ++ join sep ps

unfoldable pub relative : List Str → Str
relative [] = str "."
relative (p ∷ ps) = join sep (p ∷ ps)

unfoldable pub clean : Str → Str
clean s =
    if rooted s
    then absolute (normalise true [] (split b'/' s))
    else relative (normalise false [] (split b'/' s))

-- The path up to its last slash, the slash included.
unfoldable pub dir_part : Str → Str
dir_part [] = []
dir_part (x ∷ xs) = if has_byte b'/' (x ∷ xs) then x ∷ dir_part xs else []

unfoldable pub dir : Str → Str
dir s = clean (dir_part s)

-- Join of two elements.
unfoldable pub join_path : Str → Str → Str
join_path a b = if str_eq a [] then (if str_eq b [] then [] else clean b) else clean (a ++ sep ++ b)

unfoldable pub elements : List Str → List Str
elements [] = []
elements (p ∷ ps) = if str_eq p [] then elements ps else p ∷ elements ps

unfoldable pub ups : List Str → List Str → List Str
ups [] ts = ts
ups (b ∷ bs) ts = str ".." ∷ ups bs ts

-- The elements that lead from one list of elements to another.
unfoldable pub route : List Str → List Str → Option (List Str)
route [] ts = some ts
route (b ∷ bs) [] = some (ups (b ∷ bs) [])
route (b ∷ bs) (t ∷ ts) =
    if str_eq b t
    then route bs ts
    else if str_eq b (str "..")
    then none
    else some (ups (b ∷ bs) (t ∷ ts))

base_elements : Str → List Str
base_elements b = if str_eq b (str ".") then [] else elements (split b'/' b)

same : Bool → Bool → Bool
same true y = y
same false y = not y

joined : Option (List Str) → Option Str
joined none = none
joined (some ps) = some (join sep ps)

unfoldable pub rel : Str → Str → Option Str
unfolding base_elements same joined
rel base targ =
    let b = clean base in
    let t = clean targ in
    if str_eq t b
    then some (str ".")
    else if same (rooted b) (rooted t)
    then joined (route (base_elements b) (elements (split b'/' t)))
    else none
