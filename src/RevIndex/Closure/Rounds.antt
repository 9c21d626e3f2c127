-- ===== src/RevIndex/Closure/Rounds.antt =====
-- The search ends: every round takes a directory off the queue, and a directory enters it once.
use gopls_lazy.Base.{
  ℕ, zero, suc, ◌+◌, ◌<◌, ◌≤◌, Str, str_eq_iff, str_eq_refl, List, [], ◌∷◌, Map, lookup, contains,
  contains-append, some, true, false, if◌then◌else◌, length, length-append, ◌≡◌, refl, arith, inl,
  inr, List-cases, ap, ◌∙◌, sym,
}
use gopls_lazy.RevIndex.{importers_of}
use gopls_lazy.RevIndex.Closure.{
  Search, offer, offer_all, expand, search_loop, start, all_importers, search_fuel, seen_dirs,
}

-- How many of the listed directories have not been seen.
pub unseen : List Str → List Str → ℕ
unseen [] seen = 0
unseen (d ∷ ds) seen = if contains d seen then unseen ds seen else suc (unseen ds seen)

unseen_mono : (ds seen : List Str) (e : Str) → unseen ds (e ∷ seen) ≤ unseen ds seen
unfolding unseen contains
unseen_mono [] seen e = omega arith
unseen_mono (d ∷ ds) seen e = ground (arith, unseen_mono ds seen e)

-- Seeing a new directory of the list lowers the count.
unseen-cons :
    (ds seen : List Str) (e : Str)
    → contains e ds ≡ true
    → contains e seen ≡ false
    → unseen ds (e ∷ seen) < unseen ds seen
unfolding unseen contains
unseen-cons [] seen e h k = cc
unseen-cons (d ∷ ds) seen e h k =
    ground (arith, unseen-cons ds seen e, unseen_mono ds seen e, str_eq_iff d e, str_eq_iff e d)

pub contains-importers :
    (m : Map (List Str)) (d e : Str)
    → contains e (importers_of m d) ≡ true
    → contains e (all_importers m) ≡ true
unfolding all_importers contains lookup
contains-importers [] d e h = h
contains-importers ((k, imps) ∷ m) d e h =
    ground (arith, contains-importers m d e, contains-append e imps (all_importers m))

module _ (m : Map (List Str)) where
  abbrev pub work : Search → ℕ
  work s = unseen (all_importers m) s.seen + length s.queue

  offer-work :
      (s : Search) (e : Str) → contains e (all_importers m) ≡ true → work (offer s e) ≤ work s
  unfolding offer
  offer-work s e h =
      ground (arith, unseen-cons (all_importers m) s.seen e h, length-append s.queue (e ∷ []))

  offer_all-work :
      (s : Search) (es : List Str)
      → ((e : Str) → contains e es ≡ true → contains e (all_importers m) ≡ true)
      → work (offer_all s es) ≤ work s
  unfolding offer_all contains
  offer_all-work s [] h = omega arith
  offer_all-work s (e ∷ es) h =
      let first : work (offer s e) ≤ work s = offer-work s e (h e (rw str_eq_refl refl)) in
      let others : work (offer_all (offer s e) es) ≤ work (offer s e) =
        offer_all-work (offer s e) es (λ x k. h x (ground arith)) in
      omega arith

  pub search_ends :
      (fuel : ℕ) (s : Search)
      → work s < fuel
      → (seen : List Str) × (search_loop m fuel s ≡ some seen)
  unfolding search_loop expand
  search_ends zero s h = elim h [ ]
  search_ends (suc fuel) s h = elim (List-cases s.queue) [
    | inl e ↦ (s.seen, rw (e, search_loop))
    | inr (d, rest, e) ↦
        let less =
          offer_all-work (record s { queue = rest }) (importers_of m d) (contains-importers m d) in
        let (seen, q) = search_ends fuel (expand m s d rest) (omega (arith, less, ap length e)) in
        (seen, simp (e, search_loop) q)
  ]

unseen-le-length : (ds seen : List Str) → unseen ds seen ≤ length ds
unfolding unseen
unseen-le-length [] seen = omega arith
unseen-le-length (d ∷ ds) seen = ground (arith, unseen-le-length ds seen)

pub seen_dirs_returns :
    (m : Map (List Str)) (x : Str) → search_loop m (search_fuel m) (start x) ≡ some (seen_dirs m x)
unfolding seen_dirs
seen_dirs_returns m x =
    let (seen, e) = search_ends m (search_fuel m) (start x) enough in e ∙ ap some (sym (rw e refl))
  where
    enough : work m (start x) < search_fuel m
    enough = unfold start in omega (arith, unseen-le-length (all_importers m) (x ∷ []))
