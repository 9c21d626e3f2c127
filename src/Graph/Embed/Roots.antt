-- ===== src/Graph/Embed/Roots.antt =====
-- The literal root of an embed pattern, of graph.go.
use mathlib.Core.List.{append_assoc, append-nil}
use mathlib.Core.Option.{some-injective}
use gopls_lazy.Base.{
  ℕ, subst, Bool, true, false, Str, str_eq, none, some, [], ◌∷◌, ◌++◌, ◌||◌, ◌==◌, ◌&&◌, init, ◌≡◌,
  refl, arith, sym, ap, ◌∙◌, Bool-cases, Option-cases, inl, inr, ◌⊎◌,
}
use gopls_lazy.Filepath.{has_byte, dir_part}
use gopls_lazy.Graph.Embed.{
  is_wild, before_wild, before_slash, trim_slashes, pattern_path, embed_literal_root,
}

unfoldable pub has_wild : Str → Bool
has_wild [] = false
has_wild (x ∷ xs) = is_wild (x ∷ []) || has_wild xs

-- What follows the root in the path: nothing, or a slash and more.
abbrev pub IsRest : Str → Type 0
IsRest r = (r ≡ []) ⊎ ((t : Str) × (r ≡ b'/' ∷ t))

has_wild-append : (s t : Str) → has_wild (s ++ t) ≡ (has_wild s || has_wild t)
unfolding has_wild
has_wild-append [] t = refl
has_wild-append (x ∷ s) t = ground (arith, has_wild-append s t)

before_wild-none : (s : Str) → before_wild s ≡ none → has_wild s ≡ false
unfolding before_wild has_wild
before_wild-none [] h = refl
before_wild-none (x ∷ s) h = elim (Option-cases (before_wild s)) [
  | inl n ↦ ground (arith, before_wild-none s n)
  | inr (t, e) ↦ ground arith
]

before_wild-some :
    (s r : Str) → before_wild s ≡ some r → (has_wild r ≡ false) × ((t : Str) × (s ≡ r ++ t))
unfolding before_wild has_wild
before_wild-some [] r h = cc
before_wild-some (x ∷ s) r h = elim (Bool-cases (is_wild (x ∷ []))) [
  | inl w ↦
      let e : [] ≡ r = some-injective [] r (rw w at h) in
      subst (λ q. (has_wild q ≡ false) × ((t : Str) × (x ∷ s ≡ q ++ t))) e (refl, (x ∷ s, refl))
  | inr w ↦ elim (Option-cases (before_wild s)) [
    | inl n ↦ cc (rw (w, n) at h)
    | inr (q, e) ↦
        let (k, (t, f)) = before_wild-some s q e in
        let g : x ∷ q ≡ r = some-injective (x ∷ q) r (rw (w, e) at h) in
        subst (λ u. (has_wild u ≡ false) × ((t : Str) × (x ∷ s ≡ u ++ t))) g
          (rw (w, k) refl, (t, ap (◌∷◌ x) f))
  ]
]

init-concat : (r : Str) (c : ℕ) → init (r ++ c ∷ []) ≡ r
init-concat [] c = refl
init-concat (x ∷ []) c = refl
init-concat (x ∷ y ∷ r) c = ap (◌∷◌ x) (init-concat (y ∷ r) c)

dir_part-none : (s : Str) → has_byte b'/' s ≡ false → dir_part s ≡ []
unfolding dir_part
dir_part-none [] h = refl
dir_part-none (x ∷ s) h = rw h refl

dir_part-slash :
    (s : Str)
    → has_byte b'/' s ≡ true
    → (r : Str) × (t : Str) × (dir_part s ≡ r ++ b'/' ∷ []) × (s ≡ r ++ b'/' ∷ t)
unfolding has_byte dir_part
dir_part-slash [] h = cc
dir_part-slash (x ∷ s) h = elim (Bool-cases (has_byte b'/' s)) [
  | inl y ↦ let (r, t, e, f) = dir_part-slash s y in (x ∷ r, t, rw h (ap (◌∷◌ x) e), ap (◌∷◌ x) f)
  | inr n ↦ ([], s, rw h (rw (dir_part-none s n) (ground arith)), ground arith)
]

-- A path with a slash is what precedes the last slash, the slash, and the rest.
before_slash-some : (s r : Str) → before_slash s ≡ some r → (t : Str) × (s ≡ r ++ b'/' ∷ t)
unfolding before_slash
before_slash-some s r h = elim (Bool-cases (has_byte b'/' s)) [
  | inl y ↦
      let (q, t, e, f) = dir_part-slash s y in
      let g : q ≡ r =
        sym (init-concat q b'/')
        ∙ ap init (sym e)
        ∙ some-injective (init (dir_part s)) r (rw y at h) in
      (t, f ∙ ap (λ u. u ++ b'/' ∷ t) g)
  | inr n ↦ cc (rw n at h)
]

IsRest-append : (t u : Str) → IsRest t → IsRest u → IsRest (t ++ u)
IsRest-append t u (inl n) i = subst (λ q. IsRest (q ++ u)) (sym n) i
IsRest-append t u (inr (v, e)) i = inr (v ++ u, ap (λ q. q ++ u) e)

trim_slashes-cases : (s : Str) → (r : Str) × IsRest r × (s ≡ trim_slashes s ++ r)
unfolding trim_slashes
trim_slashes-cases [] = ([], inl refl, refl)
trim_slashes-cases (x ∷ s) = elim (Bool-cases (x == b'/' && str_eq (trim_slashes s) [])) [
  | inl y ↦ (x ∷ s, inr (s, ground arith), rw y refl)
  | inr n ↦ let (r, i, e) = trim_slashes-cases s in (r, i, rw n (ap (◌∷◌ x) e))
]

-- What is left of a path after some of its rest is cut.
trim_slashes-path :
    (p r u : Str)
    → IsRest u
    → p ≡ r ++ u
    → has_wild r ≡ false
    → (has_wild (trim_slashes r) ≡ false)
      × ((rest : Str) × IsRest rest × (p ≡ trim_slashes r ++ rest))
trim_slashes-path p r u i e w =
    let (t, k, f) = trim_slashes-cases r in
    let plain : has_wild (trim_slashes r) ≡ false =
      ground (arith, has_wild-append (trim_slashes r) t) in
    let g = e ∙ ap (λ q. q ++ u) f ∙ append_assoc (trim_slashes r) t u in
    (plain, (t ++ u, IsRest-append t u k i, g))

-- The literal root of an embed pattern has no wildcard, and the path of the pattern continues it with
-- nothing or at a slash; it is empty if there is no slash before the first wildcard.
pub embed_literal_root-IsRoot :
    (pattern d : Str)
    → let root = embed_literal_root pattern d in
      (has_wild root ≡ false)
      × ((root ≡ []) ⊎ ((rest : Str) × IsRest rest × (pattern_path pattern d ≡ root ++ rest)))
unfolding embed_literal_root has_wild
embed_literal_root-IsRoot pattern d =
    let p = pattern_path pattern d in
    elim (Option-cases (before_wild p)) [
      | inl n ↦
          let (w, c) =
            trim_slashes-path p p [] (inl refl) (sym (append-nil p)) (before_wild-none p n) in
          rw (n, embed_literal_root) (w, inr c)
      | inr (s, e) ↦ elim (Option-cases (before_slash s)) [
        | inl n ↦ rw (e, embed_literal_root, n) (refl, inl refl)
        | inr (r, f) ↦
            let (w, (t, g)) = before_wild-some p s e in
            let (u, h) = before_slash-some s r f in
            let plain : has_wild r ≡ false =
              ground (arith, has_wild-append r (b'/' ∷ u), ap has_wild h) in
            let k = g ∙ ap (λ q. q ++ t) h ∙ append_assoc r (b'/' ∷ u) t in
            let (w', c) = trim_slashes-path p r (b'/' ∷ (u ++ t)) (inr (u ++ t, refl)) k plain in
            rw (e, embed_literal_root, f) (w', inr c)
      ]
    ]
