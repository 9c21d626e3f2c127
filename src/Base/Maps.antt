-- ===== src/Base/Maps.antt =====
-- A Go map with string keys as a list of pairs, in some order of its keys; a Go set
-- (map[string]bool) as a list of strings.
use mathlib.Core.Path.{◌≡◌, refl}
use mathlib.Core.Bool.{Bool, true, false, ◌&&◌, ◌||◌, not}
use mathlib.Core.Option
use mathlib.Core.Option.{Option, none, some}
use mathlib.Core.List.{List, [], ◌∷◌, ◌++◌}
use native.Mathlib.Omega.{arith}
use gopls_lazy.Base.Tests.{if◌then◌else◌}
use gopls_lazy.Base.Strings.{Str, str_eq, str_eq_iff}

unfoldable pub contains : Str → List Str → Bool
contains u [] = false
contains u (x ∷ xs) = str_eq x u || contains u xs

-- No string stands twice.
unfoldable pub distinct : List Str → Bool
distinct [] = true
distinct (x ∷ xs) = not (contains x xs) && distinct xs

-- Writing true at a key of a set, and deleting a key.
unfoldable pub add : Str → List Str → List Str
add u xs = if contains u xs then xs else u ∷ xs

unfoldable pub remove : Str → List Str → List Str
remove u [] = []
remove u (x ∷ xs) = if str_eq x u then remove u xs else x ∷ remove u xs

pub contains-append :
    (u : Str) (xs ys : List Str) → contains u (xs ++ ys) ≡ (contains u xs || contains u ys)
unfolding contains
contains-append u [] ys = refl
contains-append u (x ∷ xs) ys = ground (arith, contains-append u xs ys)

pub contains-add :
    (u v : Str) (xs : List Str) → contains u (add v xs) ≡ (str_eq v u || contains u xs)
unfolding add contains
contains-add u v xs = ground (arith, str_eq_iff v u)

pub contains-remove :
    (u v : Str) (xs : List Str) → contains u (remove v xs) ≡ (not (str_eq v u) && contains u xs)
unfolding remove contains
contains-remove u v [] = ground arith
contains-remove u v (x ∷ xs) =
    ground (arith, contains-remove u v xs, str_eq_iff x v, str_eq_iff x u, str_eq_iff v u)

abbrev pub is_some {ℓ} : {A : Type ℓ} → Option A → Bool
is_some none = false
is_some (some a) = true

abbrev pub keep_if {ℓ} : {A : Type ℓ} → (A → Bool) → Option A → Option A
keep_if p none = none
keep_if p (some a) = if p a then some a else none

abbrev pub Map {ℓ} : Type ℓ → Type ℓ
Map V = List (Str × V)

module _ {ℓ} {V : Type ℓ} where
  unfoldable pub lookup : Str → Map V → Option V
  lookup k [] = none
  lookup k ((j, v) ∷ m) = if str_eq j k then some v else lookup k m

  unfoldable pub insert : Str → V → Map V → Map V
  insert k v [] = (k, v) ∷ []
  insert k v ((j, w) ∷ m) = if str_eq j k then (j, v) ∷ m else (j, w) ∷ insert k v m

  unfoldable pub delete : Str → Map V → Map V
  delete k [] = []
  delete k ((j, w) ∷ m) = if str_eq j k then delete k m else (j, w) ∷ delete k m

  unfoldable pub keys : Map V → List Str
  keys [] = []
  keys ((k, v) ∷ m) = k ∷ keys m

  -- A loop that writes to every value.
  unfoldable pub map_values : (V → V) → Map V → Map V
  map_values f [] = []
  map_values f ((k, v) ∷ m) = (k, f v) ∷ map_values f m

  -- A loop that deletes the entries that fail a test.
  unfoldable pub retain : (Str → V → Bool) → Map V → Map V
  retain p [] = []
  retain p ((k, v) ∷ m) = if p k v then (k, v) ∷ retain p m else retain p m

module _ {ℓ} {V : Type ℓ} where
  pub lookup-insert :
      (k j : Str) (v : V) (m : Map V)
      → lookup j (insert k v m) ≡ (if str_eq k j then some v else lookup j m)
  unfolding lookup insert
  lookup-insert k j v [] = refl
  lookup-insert k j v ((i, w) ∷ m) =
      ground (arith, str_eq_iff k j, str_eq_iff i k, str_eq_iff i j, lookup-insert k j v m)

  pub lookup-delete :
      (k j : Str) (m : Map V) → lookup j (delete k m) ≡ (if str_eq k j then none else lookup j m)
  unfolding lookup delete
  lookup-delete k j [] = ground arith
  lookup-delete k j ((i, w) ∷ m) =
      ground (arith, str_eq_iff k j, str_eq_iff i k, str_eq_iff i j, lookup-delete k j m)

  pub lookup-map_values :
      (k : Str) (f : V → V) (m : Map V) → lookup k (map_values f m) ≡ Option.map f (lookup k m)
  unfolding lookup map_values
  lookup-map_values k f [] = refl
  lookup-map_values k f ((j, v) ∷ m) = ground (arith, lookup-map_values k f m)

  -- A key is there exactly when a lookup finds a value.
  pub contains-keys : (k : Str) (m : Map V) → contains k (keys m) ≡ is_some (lookup k m)
  unfolding lookup contains keys
  contains-keys k [] = refl
  contains-keys k ((j, v) ∷ m) = ground (arith, contains-keys k m)

  pub lookup-retain :
      (k : Str) (p : Str → V → Bool) (m : Map V)
      → distinct (keys m) ≡ true
      → lookup k (retain p m) ≡ keep_if (p k) (lookup k m)
  unfolding lookup retain keys distinct
  lookup-retain k p [] d = refl
  lookup-retain k p ((j, v) ∷ m) d =
      ground (arith, lookup-retain k p m, str_eq_iff j k, contains-keys j m, contains-keys k m)

  contains-retain :
      (k : Str) (p : Str → V → Bool) (m : Map V)
      → contains k (keys m) ≡ false
      → contains k (keys (retain p m)) ≡ false
  unfolding retain keys contains
  contains-retain k p [] h = refl
  contains-retain k p ((j, v) ∷ m) h = ground (arith, contains-retain k p m)

  pub distinct-retain :
      (p : Str → V → Bool) (m : Map V)
      → distinct (keys m) ≡ true
      → distinct (keys (retain p m)) ≡ true
  unfolding retain keys distinct
  distinct-retain p [] d = refl
  distinct-retain p ((j, v) ∷ m) d = ground (arith, distinct-retain p m, contains-retain j p m)

  pub contains-keys-insert :
      (k j : Str) (v : V) (m : Map V)
      → contains j (keys (insert k v m)) ≡ (str_eq k j || contains j (keys m))
  contains-keys-insert k j v m =
      ground (arith, contains-keys j m, contains-keys j (insert k v m), lookup-insert k j v m)

  pub distinct-insert :
      (k : Str) (v : V) (m : Map V)
      → distinct (keys m) ≡ true
      → distinct (keys (insert k v m)) ≡ true
  unfolding insert keys distinct contains
  distinct-insert k v [] d = refl
  distinct-insert k v ((j, w) ∷ m) d =
      ground
        (arith, distinct-insert k v m, contains-keys-insert k j v m, str_eq_iff j k, str_eq_iff k j)

  pub keys-map_values : (f : V → V) (m : Map V) → keys (map_values f m) ≡ keys m
  unfolding keys map_values
  keys-map_values f [] = refl
  keys-map_values f ((j, v) ∷ m) = ground (arith, keys-map_values f m)
