-- ===== src/Held/Order.antt =====
-- proxy.go: sequences of steps on the held requests, and what each operation writes and keeps.
use gopls_lazy.Base.{
  ℕ, suc, Bool, true, false, Str, str_eq, List, [], ◌∷◌, ◌++◌, lookup, lookup-insert, lookup-delete,
  delete, get_or, ◌≡◌, ◌⊎◌, inl, inr, refl, arith, if◌then◌else◌, ◌==◌, ◌||◌, Bool-cases, ap, ◌∙◌,
}
use gopls_lazy.Held.{
  HeldReq, Written, request, did_change, Holding, has_id, forward_held, held_for, register_held_def,
  without, keep_held, unregister_held_def, forward_all, release_held_defs, change,
}

-- How often the request has been written to gopls.
abbrev pub writes : ℕ → List Written → ℕ
writes i [] = 0
writes i (request j raw ∷ ws) = let rest = writes i ws in if j == i then suc rest else rest
writes i (did_change uri ∷ ws) = writes i ws

-- The request is in a list of held ones.
abbrev pub is_held : ℕ → List HeldReq → Bool
is_held i [] = false
is_held i (h ∷ hs) = h.id == i || is_held i hs

-- One step. `known` lists the requests that were held so far, each with the document's URI: a new one
-- is a new object. The goroutine of a request forwards it and then takes it off the list, and a
-- didChange may come between.
pub data Step (s : Holding) (known : List (Str × HeldReq))
    : Holding → List (Str × HeldReq) → Type 0 where
  holds :
      (uri : Str) (h : HeldReq)
      → has_id h.id s.fired ≡ false
      → Step s known (register_held_def uri h s) ((uri, h) ∷ known)
  forwards : (h : HeldReq) → Step s known (forward_held h s) known
  unregisters :
      (uri : Str) (h : HeldReq)
      → has_id h.id s.fired ≡ true
      → Step s known (unregister_held_def uri h s) known
  changes : (uri : Str) → Step s known (change uri s) known

pub data Reach : Holding → List (Str × HeldReq) → Type 0 where
  nothing : Reach (record { held_defs = []; fired = []; to_server = [] }) []
  next :
      {s t : Holding} {known known' : List (Str × HeldReq)}
      → Reach s known
      → Step s known t known'
      → Reach t known'

-- The request was held for the document.
abbrev pub WasHeld : Str → ℕ → List (Str × HeldReq) → Type 0
WasHeld uri i [] = ⊥
WasHeld uri i ((v, h) ∷ known) = ((v ≡ uri) × (h.id ≡ i)) ⊎ WasHeld uri i known

pub record Inv (s : Holding) (known : List (Str × HeldReq)) : Type 0 where
  pub once : (i : ℕ) → writes i s.to_server ≡ (if has_id i s.fired then 1 else 0)
  pub accounted :
      (uri : Str) (i : ℕ)
      → WasHeld uri i known
      → (has_id i s.fired ≡ true) ⊎ (is_held i (held_for uri s) ≡ true)

pub forward_held-once :
    (h : HeldReq) (s : Holding)
    → ((i : ℕ) → writes i s.to_server ≡ (if has_id i s.fired then 1 else 0))
    → (i : ℕ)
    → writes i (forward_held h s).to_server ≡ (if has_id i (forward_held h s).fired then 1 else 0)
unfolding forward_held has_id
forward_held-once h s v i = ground (arith, v i)

pub forward_held-fired :
    (h : HeldReq) (s : Holding) (i : ℕ)
    → has_id i (forward_held h s).fired ≡ (h.id == i || has_id i s.fired)
unfolding forward_held has_id
forward_held-fired h s i = ground arith

pub forward_held-held_defs :
    (h : HeldReq) (s : Holding) → (forward_held h s).held_defs ≡ s.held_defs
unfolding forward_held
forward_held-held_defs h s = ground arith

pub forward_all_lem :
    (hs : List HeldReq) (s : Holding)
    → ((i : ℕ) → writes i s.to_server ≡ (if has_id i s.fired then 1 else 0))
    → ((i : ℕ)
        → writes i (forward_all hs s).to_server
          ≡ (if has_id i (forward_all hs s).fired then 1 else 0))
      × ((i : ℕ) → has_id i (forward_all hs s).fired ≡ (is_held i hs || has_id i s.fired))
      × ((forward_all hs s).held_defs ≡ s.held_defs)
unfolding forward_all
forward_all_lem [] s v = (v, λ i. refl, refl)
forward_all_lem (h ∷ hs) s v =
    let (a, b, c) = forward_all_lem hs (forward_held h s) (forward_held-once h s v) in
    (a, λ i. ground (arith, b i, forward_held-fired h s i), c ∙ forward_held-held_defs h s)

pub is_held-append :
    (i : ℕ) (hs : List HeldReq) (h : HeldReq)
    → is_held i (hs ++ h ∷ []) ≡ (is_held i hs || h.id == i)
is_held-append i [] h = ground arith
is_held-append i (x ∷ hs) h = ground (arith, is_held-append i hs h)

pub is_held-without :
    (i : ℕ) (hs : List HeldReq) (h : HeldReq)
    → is_held i hs ≡ true
    → (h.id ≡ i) ⊎ (is_held i (without h hs) ≡ true)
unfolding without
is_held-without i [] h k = cc
is_held-without i (x ∷ hs) h k = elim (Bool-cases (h.id == i)) [
  | inl y ↦ inl (ground arith)
  | inr n ↦ inr (elim (Bool-cases (x.id == i)) [
    | inl a ↦ ground arith
    | inr b ↦ ground (arith, is_held-without i hs h)
  ])
]

pub keep_held-held_for :
    (uri v : Str) (hs : List HeldReq) (s : Holding)
    → held_for v (keep_held uri hs s) ≡ (if str_eq uri v then hs else held_for v s)
unfolding keep_held
keep_held-held_for uri v [] s = ground (arith, lookup-delete uri v s.held_defs)
keep_held-held_for uri v (x ∷ xs) s = ground (arith, lookup-insert uri v (x ∷ xs) s.held_defs)

pub change-fires :
    (uri : Str) (s : Holding) (i : ℕ)
    → ((i : ℕ) → writes i s.to_server ≡ (if has_id i s.fired then 1 else 0))
    → has_id i (change uri s).fired ≡ (is_held i (held_for uri s) || has_id i s.fired)
unfolding change release_held_defs
change-fires uri s i v =
    (forward_all_lem (held_for uri s) (record s { held_defs = delete uri s.held_defs }) v).1 i

pub register-held_for :
    (uri v : Str) (h : HeldReq) (s : Holding)
    → held_for v (register_held_def uri h s)
      ≡ (if str_eq uri v then held_for uri s ++ h ∷ [] else held_for v s)
unfolding register_held_def
register-held_for uri v h s =
    ground (arith, lookup-insert uri v (held_for uri s ++ h ∷ []) s.held_defs)

pub change-held_for :
    (uri v : Str) (s : Holding)
    → ((i : ℕ) → writes i s.to_server ≡ (if has_id i s.fired then 1 else 0))
    → held_for v (change uri s) ≡ (if str_eq uri v then [] else held_for v s)
unfolding change release_held_defs
change-held_for uri v s w =
    let (_, _, same) =
      forward_all_lem (held_for uri s) (record s { held_defs = delete uri s.held_defs }) w in
    ap (λ m. get_or (lookup v m) []) same ∙ ground (arith, lookup-delete uri v s.held_defs)
