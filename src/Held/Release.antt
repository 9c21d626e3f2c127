-- ===== src/Held/Release.antt =====
-- Every held request goes to gopls once, and before a later edit of its document.
use gopls_lazy.Base.{
  ℕ, ◌≤◌, true, Str, str_eq, str_eq_iff, List, [], ◌∷◌, lookup, delete, get_or, ◌≡◌, ◌⊎◌, inl, inr,
  refl, arith, if◌then◌else◌, Bool-cases, List-cases, ap, ◌∙◌, subst,
}
use gopls_lazy.Held.{
  HeldReq, Holding, has_id, held_for, register_held_def, without, keep_held, unregister_held_def,
  release_held_defs, change,
}
use gopls_lazy.Held.Order.{
  writes, is_held, Step, Reach, WasHeld, Inv, forward_held-once, forward_held-fired,
  forward_held-held_defs, forward_all_lem, is_held-append, is_held-without, keep_held-held_for,
  change-fires, register-held_for, change-held_for, holds, forwards, unregisters, changes, nothing,
  next,
}

holds-accounted :
    (uri : Str) (h : HeldReq) (s : Holding) (known : List (Str × HeldReq))
    → Inv s known
    → (v : Str) (i : ℕ) → WasHeld v i ((uri, h) ∷ known)
    → (has_id i s.fired ≡ true) ⊎ (is_held i (held_for v (register_held_def uri h s)) ≡ true)
holds-accounted uri h s known inv v i (inl (e, q)) = inr (
    ap (is_held i) (register-held_for uri v h s)
    ∙ ground (arith, (str_eq_iff uri v).1 e, is_held-append i (held_for uri s) h, q))
holds-accounted uri h s known inv v i (inr w) = elim (inv.accounted v i w) [
  | inl y ↦ inl y
  | inr k ↦ inr (
      ap (is_held i) (register-held_for uri v h s) ∙ elim (Bool-cases (str_eq uri v)) [
        | inl e ↦ ground (
          arith,
          is_held-append i (held_for uri s) h,
          ap (λ x. is_held i (held_for x s)) ((str_eq_iff uri v).0 e),
        )
        | inr n ↦ ground arith
      ])
]

unregisters-accounted :
    (uri : Str) (h : HeldReq) (s : Holding) (v : Str) (i : ℕ)
    → has_id h.id s.fired ≡ true
    → is_held i (held_for v s) ≡ true
    → (has_id i s.fired ≡ true) ⊎ (is_held i (held_for v (unregister_held_def uri h s)) ≡ true)
unfolding unregister_held_def
unregisters-accounted uri h s v i f k = elim (Bool-cases (str_eq uri v)) [
  | inl e ↦
      let same = ap (λ x. is_held i (held_for x s)) ((str_eq_iff uri v).0 e) in
      elim (is_held-without i (held_for uri s) h (same ∙ k)) [
        | inl q ↦ inl (subst (λ x. has_id x s.fired ≡ true) q f)
        | inr y ↦ inr (
            ap (is_held i) (keep_held-held_for uri v (without h (held_for uri s)) s) ∙ ground arith)
      ]
  | inr n ↦
      inr (ap (is_held i) (keep_held-held_for uri v (without h (held_for uri s)) s) ∙ ground arith)
]

unregister-same :
    (uri : Str) (h : HeldReq) (s : Holding)
    → ((unregister_held_def uri h s).fired ≡ s.fired)
      × ((unregister_held_def uri h s).to_server ≡ s.to_server)
unfolding unregister_held_def keep_held
unregister-same uri h s = elim (List-cases (without h (held_for uri s))) [
  | inl e ↦ rw (e, keep_held) (refl, refl)
  | inr (x, xs, e) ↦ rw (e, keep_held) (refl, refl)
]

change-once :
    (uri : Str) (s : Holding)
    → ((i : ℕ) → writes i s.to_server ≡ (if has_id i s.fired then 1 else 0))
    → (i : ℕ) → writes i (change uri s).to_server ≡ (if has_id i (change uri s).fired then 1 else 0)
unfolding change release_held_defs
change-once uri s w i =
    (forward_all_lem (held_for uri s) (record s { held_defs = delete uri s.held_defs }) w).0 i

Step-Inv :
    {s t : Holding} {known known' : List (Str × HeldReq)}
    → Step s known t known'
    → Inv s known
    → Inv t known'
unfolding register_held_def
Step-Inv {s} {t} {known} (holds uri h fresh) v = record {
  once = v.once;
  accounted = holds-accounted uri h s known v;
}
Step-Inv {s} (forwards h) v = record {
  once = forward_held-once h s v.once;
  accounted = λ uri i w. ground (
    arith,
    v.accounted uri i w,
    forward_held-fired h s i,
    ap (λ m. is_held i (get_or (lookup uri m) [])) (forward_held-held_defs h s),
  );
}
Step-Inv {s} (unregisters uri h fired) v =
    let (same_fired, same_sent) = unregister-same uri h s in
    record {
      once = λ i. ground (arith, v.once i, ap (writes i) same_sent, ap (has_id i) same_fired);
      accounted = λ x i w. elim (v.accounted x i w) [
        | inl y ↦ inl (ap (has_id i) same_fired ∙ y)
        | inr k ↦ elim (unregisters-accounted uri h s x i fired k) [
          | inl y ↦ inl (ap (has_id i) same_fired ∙ y)
          | inr z ↦ inr z
        ]
      ];
    }
Step-Inv {s} (changes uri) v = record {
  once = change-once uri s v.once;
  accounted = λ x i w. elim (Bool-cases (str_eq uri x)) [
    | inl e ↦ ground (
      arith,
      v.accounted x i w,
      change-fires uri s i v.once,
      ap (λ y. is_held i (held_for y s)) ((str_eq_iff uri x).0 e),
    )
    | inr n ↦ ground (
      arith,
      v.accounted x i w,
      change-fires uri s i v.once,
      ap (is_held i) (change-held_for uri x s v.once),
    )
  ];
}

Reach-Inv : {s : Holding} {known : List (Str × HeldReq)} → Reach s known → Inv s known
unfolding lookup has_id
Reach-Inv nothing = record { once = λ i. refl; accounted = λ uri i w. absurd w }
Reach-Inv (next r s) = Step-Inv s (Reach-Inv r)

-- However requests are held, forwarded, taken off and released by edits, each is written to gopls at
-- most once; and once the held requests of a document are released, which a didChange does before it
-- goes out itself, every request that was held for this document has been written exactly once.
pub held_before_change :
    (s : Holding) (known : List (Str × HeldReq)) (uri : Str) (i : ℕ)
    → Reach s known
    → (writes i s.to_server ≤ 1)
      × (WasHeld uri i known → writes i (release_held_defs uri s).to_server ≡ 1)
unfolding release_held_defs
held_before_change s known uri i r =
    let v = Reach-Inv r in
    let (once, fires, _) =
      forward_all_lem (held_for uri s) (record s { held_defs = delete uri s.held_defs }) v.once in
    (ground (arith, v.once i), λ w. ground (arith, once i, fires i, v.accounted uri i w))
