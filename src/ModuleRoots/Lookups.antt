-- ===== src/ModuleRoots/Lookups.antt =====
-- modroot.go: the cache of nested roots under concurrent lookups. RootFor walks between its two locks,
-- so that other lookups, a change of the disk and Invalidate may come before it stores its answer. A walk reads the disk of one moment.
use gopls_lazy.Base.{
  true, false, Bool, Str, str_eq_iff, lookup, lookup-insert, none, List, [], ◌∷◌, ◌++◌, ◌≡◌, refl,
  ◌∙◌, arith, subst, sym, All,
}
use gopls_lazy.ModuleRoots.{
  FileSystem, ModuleRootCache, nested_module_root, cached_root, store_root, invalidate,
}
use gopls_lazy.ModuleRoots.Cache.{IsCoherent}

-- The lookups that have walked and not yet stored their answer, each with its directory: `walked` since
-- the last change of the disk, `overtaken` before it. `settled` says that the cache was invalidated
-- since that change, with no lookup overtaken.
pub record Roots : Type 0 where
  pub disk : FileSystem
  pub cache : ModuleRootCache
  pub walked : List (Str × Str)
  pub overtaken : List (Str × Str)
  pub settled : Bool

abbrev pub is_nil : List (Str × Str) → Bool
is_nil [] = true
is_nil (x ∷ xs) = false

module _ (root : Str) where
  pub data Step (w : Roots) : Roots → Type 0 where
    walks :
        (d : Str)
        → cached_root d w.cache ≡ none
        → Step w (record w { walked = (d, nested_module_root w.disk d root) ∷ w.walked })
    stores :
        (d v : Str) (before after : List (Str × Str))
        → w.walked ≡ before ++ (d, v) ∷ after
        → Step w (record w { cache = store_root d v w.cache; walked = before ++ after })
    stores_late :
        (d v : Str) (before after : List (Str × Str))
        → w.overtaken ≡ before ++ (d, v) ∷ after
        → Step w (record w { cache = store_root d v w.cache; overtaken = before ++ after })
    changes :
        (disk : FileSystem)
        → Step w (record w {
          disk = disk;
          walked = [];
          overtaken = w.walked ++ w.overtaken;
          settled = false;
        })
    invalidates : Step w (record w { cache = invalidate w.cache; settled = is_nil w.overtaken })

  pub data Reach (w : Roots) : Roots → Type 0 where
    here : Reach w w
    next : {v u : Roots} → Reach w v → Step v u → Reach w u

  -- An answer that is that of the walk on the disk as it is.
  abbrev pub IsTrue : FileSystem → Str × Str → Type 0
  IsTrue fs (d, v) = v ≡ nested_module_root fs d root

  record Inv (w : Roots) : Type 0 where
    walked_true : All (IsTrue w.disk) w.walked
    settled_true : w.settled ≡ true → IsCoherent w.disk root w.cache
    none_late : w.settled ≡ true → w.overtaken ≡ []

  middle :
      (fs : FileSystem) (x : Str × Str) (before after : List (Str × Str))
      → All (IsTrue fs) (before ++ x ∷ after)
      → IsTrue fs x × All (IsTrue fs) (before ++ after)
  middle fs x [] after (t, h) = (t, h)
  middle fs x (y ∷ before) after (t, h) = let (k, l) = middle fs x before after h in (k, (t, l))

  IsCoherent-store_root :
      (fs : FileSystem) (d v : Str) (c : ModuleRootCache)
      → IsTrue fs (d, v)
      → IsCoherent fs root c
      → IsCoherent fs root (store_root d v c)
  IsCoherent-store_root fs d v c t h d' v' =
      λ k. ground (arith, lookup-insert d d' v c.cache, str_eq_iff d d', h d' v')

  no_late : (x : Str × Str) (before after : List (Str × Str)) → before ++ x ∷ after ≡ [] → ⊥
  no_late x [] after e = cc
  no_late x (y ∷ before) after e = cc

  is_nil_lem : (xs : List (Str × Str)) → is_nil xs ≡ true → xs ≡ []
  is_nil_lem [] h = refl
  is_nil_lem (x ∷ xs) h = cc

  Inv-Step : (w u : Roots) → Step w u → Inv w → Inv u
  unfolding invalidate lookup
  Inv-Step w u (walks d n) i = record {
    walked_true = (refl, i.walked_true);
    settled_true = i.settled_true;
    none_late = i.none_late;
  }
  Inv-Step w u (stores d v before after e) i =
      let (t, h) =
        middle w.disk (d, v) before after (subst (All (IsTrue w.disk)) e i.walked_true) in
      record {
        walked_true = h;
        settled_true = λ s. IsCoherent-store_root w.disk d v w.cache t (i.settled_true s);
        none_late = i.none_late;
      }
  Inv-Step w u (stores_late d v before after e) i = record {
    walked_true = i.walked_true;
    settled_true = λ s. absurd (no_late (d, v) before after (sym e ∙ i.none_late s));
    none_late = λ s. absurd (no_late (d, v) before after (sym e ∙ i.none_late s));
  }
  Inv-Step w u (changes disk) i = record {
    walked_true = tt;
    settled_true = λ s. cc;
    none_late = λ s. cc;
  }
  Inv-Step w u invalidates i = record {
    walked_true = i.walked_true;
    settled_true = λ s d v k. cc;
    none_late = is_nil_lem w.overtaken;
  }

  Inv-Reach : (w u : Roots) → Reach w u → Inv w → Inv u
  Inv-Reach w u here i = i
  Inv-Reach w u (next {v} r s) i = Inv-Step v u s (Inv-Reach w v r i)

  -- However the lookups, the changes of the disk and the invalidations interleave: from an empty cache
  -- on, as long as the last invalidation came after the last change of the disk, and no lookup that had
  -- walked before that change was still to store its answer, every cached answer is that of the walk
  -- on the disk as it is, and so is every answer that a lookup is about to store.
  pub settled_lookups :
      (disk : FileSystem) (w : Roots)
      → Reach
          (record {
            disk = disk;
            cache = record { cache = [] };
            walked = [];
            overtaken = [];
            settled = true;
          })
          w
      → w.settled ≡ true
      → IsCoherent w.disk root w.cache × All (IsTrue w.disk) w.walked × (w.overtaken ≡ [])
  unfolding lookup
  settled_lookups disk w r s =
      let i =
        Inv-Reach _ w r
          (record { walked_true = tt; settled_true = λ _ d v k. cc; none_late = λ _. refl }) in
      (i.settled_true s, i.walked_true, i.none_late s)
