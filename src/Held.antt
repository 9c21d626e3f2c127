-- ===== src/Held.antt =====
-- proxy.go: the definition and prepareRename requests that are held for their unit. A heldReq is a
-- shared object: it is named by a number, and `fired` holds those whose sync.Once has run. What goes
-- to gopls is in `to_server`, newest first.
pub mod Order
pub mod Release
pub mod Samples
use gopls_lazy.Base.{
  ℕ, ◌+◌, Bool, true, false, Str, str_eq, Option, none, some, List, [], ◌∷◌, ◌++◌, Map, lookup,
  insert, delete, get_or, if◌then◌else◌, ◌==◌, ◌||◌, ltb,
}
use gopls_lazy.Proxy.{ScopeEntry}

-- `heldReq`; `id` stands for the address of the object.
pub record HeldReq : Type 0 where
  pub id : ℕ
  pub raw : Str

pub data Written : Type 0 where
  request : ℕ → Str → Written
  did_change : Str → Written

pub record Holding : Type 0 where
  pub held_defs : Map (List HeldReq)
  pub fired : List ℕ
  pub to_server : List Written

unfoldable pub has_id : ℕ → List ℕ → Bool
has_id i [] = false
has_id i (x ∷ xs) = x == i || has_id i xs

-- `heldReq.forward`
unfoldable pub forward_held : HeldReq → Holding → Holding
forward_held h s =
    if has_id h.id s.fired
    then s
    else record s { fired = h.id ∷ s.fired; to_server = request h.id h.raw ∷ s.to_server }

abbrev pub held_for : Str → Holding → List HeldReq
held_for uri s = get_or (lookup uri s.held_defs) []

-- `registerHeldDef`
unfoldable pub register_held_def : Str → HeldReq → Holding → Holding
register_held_def uri h s = record s {
  held_defs = insert uri (held_for uri s ++ h ∷ []) s.held_defs;
}

-- The loop of `unregisterHeldDef`: the first entry that is this very object goes.
unfoldable pub without : HeldReq → List HeldReq → List HeldReq
without h [] = []
without h (x ∷ xs) = let rest = without h xs in if x.id == h.id then xs else x ∷ rest

unfoldable pub keep_held : Str → List HeldReq → Holding → Holding
keep_held uri [] s = record s { held_defs = delete uri s.held_defs }
keep_held uri (x ∷ xs) s = record s { held_defs = insert uri (x ∷ xs) s.held_defs }

-- `unregisterHeldDef`
unfoldable pub unregister_held_def : Str → HeldReq → Holding → Holding
unfolding keep_held without
unregister_held_def uri h s = keep_held uri (without h (held_for uri s)) s

unfoldable pub forward_all : List HeldReq → Holding → Holding
unfolding forward_held
forward_all [] s = s
forward_all (h ∷ hs) s = forward_all hs (forward_held h s)

-- `releaseHeldDefs`
unfoldable pub release_held_defs : Str → Holding → Holding
unfolding forward_all
release_held_defs uri s =
    forward_all (held_for uri s) (record s { held_defs = delete uri s.held_defs })

-- The didChange case of `pumpClient`, as far as gopls is concerned.
unfoldable pub change : Str → Holding → Holding
unfolding release_held_defs
change uri s =
    let s' = release_held_defs uri s in record s' { to_server = did_change uri ∷ s'.to_server }

-- The test of `holdForRequestUnit`: the unit is in the scope, and not applied yet.
unfoldable pub is_pending : ℕ → Option ScopeEntry → Bool
is_pending applied_gen none = false
is_pending applied_gen (some e) = e.gen == 0 || ltb applied_gen e.gen
