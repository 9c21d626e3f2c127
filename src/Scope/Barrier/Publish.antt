-- ===== src/Scope/Barrier/Publish.antt =====
-- Publishing units and waiting: what gopls has when the held request is forwarded.
use gopls_lazy.Base.{
  Option, ℕ, ◌<◌, ◌≤◌, true, false, Str, lookup, contains, List, some, none, ◌≡◌, arith, ◌⊎◌, inl,
  inr, Bool-cases, Option-cases, leb, ◌==◌,
}
use gopls_lazy.ModuleRoots.{FileSystem}
use gopls_lazy.Proxy.{Proxy, ScopeEntry}
use gopls_lazy.Scope.Generations.{ensure_units, push_scope, publish_units, is_applied}
use gopls_lazy.Scope.Generations.Laws.{PublishedBy, ensure_units-accounts, push_scope-PublishedBy}
use gopls_lazy.Scope.Barrier.{latest, Flight, idle, Reach, patch_initialize}
use gopls_lazy.Scope.Barrier.Start.{IsStart}
use gopls_lazy.Scope.Barrier.Frame.{push_scope-Frame}
use gopls_lazy.Scope.Barrier.Operations.{ensure_units-Frame}
use gopls_lazy.Scope.Barrier.Invariant.{Reach-Inv, patch_initialize-Inv}
use gopls_lazy.Scope.Barrier.Holds.{Names, Inv, Inv-Frame}

-- The two outcomes of `publishUnitsAndForward` before its wait.
publish_units-cases :
    (now : ℕ) (units : List Str) (p : Proxy)
    → ((publish_units now units p ≡ push_scope now (ensure_units now units p).0)
        × ((ensure_units now units p).2 ≡ true))
      ⊎ ((publish_units now units p ≡ ((ensure_units now units p).0, (ensure_units now units p).1))
          × ((ensure_units now units p).2 ≡ false))
unfolding publish_units
publish_units-cases now units p = elim (Bool-cases (ensure_units now units p).2) [
  | inl y ↦ inl (rw (y, publish_units), y)
  | inr n ↦ inr (rw (n, publish_units), n)
]

-- Where the invariant holds, publishing units keeps it, and leaves each of them in the scope,
-- published no later than the generation that the request then waits for.
pub publish_units-Inv :
    (k : Flight) (now : ℕ) (units : List Str) (p : Proxy)
    → Inv k p
    → Inv k (publish_units now units p).0
      × ((u : Str)
          → contains u units ≡ true
          → PublishedBy (publish_units now units p).1 u (publish_units now units p).0.scope)
publish_units-Inv k now units p v =
    let q = (ensure_units now units p).0 in
    let w : Inv k q = Inv-Frame p q k (ensure_units-Frame now units p) v in
    elim (publish_units-cases now units p) [
      | inl (e, need) ↦ rw e (
        Inv-Frame q (push_scope now q).0 k (push_scope-Frame now q) w,
        λ u c.
            let (x, l, _) = ensure_units-accounts now units p u c in
            push_scope-PublishedBy now u q x l (w.entries u x l),
      )
      | inr (e, need) ↦ rw e (
        w,
        λ u c.
            let (x, l, a) = ensure_units-accounts now units p u c in
            (x, l, ground (arith, a, need), ground (arith, a, need)),
      )
    ]

module _ (fs : FileSystem) (uri_to_path : Str → Str) where
  -- From the initialize request on, whatever scope of the last session it restores, along any steps
  -- in which every answer to a pull decodes and no fallback timer releases a generation: when units
  -- are published and, any steps later, the generation that this gave is applied, then each of the
  -- units is still in the scope, published no later than that generation, and the filters that gopls
  -- received last name it (or are empty), or it has been dropped meanwhile: it is gone from the
  -- scope, or back in it unpublished or at a later generation.
  pub publish_units-served :
      (begin : ℕ) (root : Str) (saved : Option (List Str)) (start p q : Proxy) (j k : Flight)
      (now : ℕ) (units : List Str) (u : Str)
      → IsStart start
      → Reach fs uri_to_path (patch_initialize fs begin root saved start) idle p j
      → Reach fs uri_to_path (publish_units now units p).0 j q k
      → is_applied (publish_units now units p).1 q ≡ true
      → contains u units ≡ true
      → (PublishedBy (publish_units now units p).1 u q.scope
          × ((filters : List Str) × (latest q.to_server ≡ some filters) × Names filters u))
        ⊎ (lookup u q.scope ≡ none)
        ⊎ ((e : ScopeEntry) × (lookup u q.scope ≡ some e)
            × ((e.gen ≡ 0) ⊎ ((publish_units now units p).1 < e.gen)))
  publish_units-served begin root saved start p q j k now units u s before after applied c =
      let v = Reach-Inv fs uri_to_path before (patch_initialize-Inv fs begin root saved start s) in
      let (w, _) = publish_units-Inv j now units p v in
      let x = Reach-Inv fs uri_to_path after w in
      elim (Option-cases (lookup u q.scope)) [
        | inl gone ↦ inr (inl gone)
        | inr (e, l) ↦ elim (Bool-cases (e.gen == 0)) [
          | inl z ↦ inr (inr (e, l, inl (ground arith)))
          | inr nz ↦ elim (Bool-cases (leb e.gen (publish_units now units p).1)) [
            | inl le ↦
                let pos : 0 < e.gen = ground arith in
                let upto : e.gen ≤ (publish_units now units p).1 = ground arith in
                let reached : (publish_units now units p).1 ≤ q.applied_gen = ground arith in
                inl ((e, l, pos, upto), x.served u e l pos (omega arith))
            | inr gt ↦ inr (inr (e, l, inr (ground arith)))
          ]
        ]
      ]
