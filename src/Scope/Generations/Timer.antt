-- ===== src/Scope/Generations/Timer.antt =====
-- The fallback timer of scope.go: it leaves the generation to a pending pull until its deadline, and
-- releases it in the end.
use gopls_lazy.Base.{
  ℕ, zero, suc, ◌+◌, ◌-◌, ◌<◌, ◌≤◌, true, false, List, [], ◌∷◌, Option, none, some, ◌≡◌, refl,
  arith, inl, inr, Bool-cases, leb, ltb, min, not, if◌then◌else◌, ◌&&◌, ◌∙◌, ap, length,
}
use gopls_lazy.Proxy.{Proxy, Fallback}
use gopls_lazy.Scope.Generations.{fire_fallback, is_applied}

next_run :
    (ℕ → Fallback → Proxy → Option (Proxy × ℕ))
    → ℕ
    → List Fallback
    → Proxy
    → List Fallback
    → Option (Proxy × ℕ)
next_run go now pending q [] = some (q, now)
next_run go now pending q (f ∷ fs) =
    let rest = go (now + f.delay) f (record q { fallbacks = pending }) in
    if ltb (length pending) (length (f ∷ fs)) then rest else some (q, now)

-- The callback of one fallback and of those that it arms, each run as its delay has passed; no other
-- operation comes between. The result has the time of the last; `none` means that the fuel ran out.
pub run_timer : ℕ → ℕ → Fallback → Proxy → Option (Proxy × ℕ)
unfolding next_run
run_timer zero now f p = none
run_timer (suc fuel) now f p =
    let q = fire_fallback now f p in next_run (run_timer fuel) now p.fallbacks q q.fallbacks

-- With a pull seen and the deadline ahead the callback only arms itself again.
rearms :
    (now : ℕ) (f : Fallback) (p : Proxy)
    → p.applied_gen < f.for_gen
    → p.saw_config_pull ≡ true
    → now < f.deadline
    → fire_fallback now f p
      ≡ record p { fallbacks = record f { delay = min f.delay (f.deadline - now) } ∷ p.fallbacks }
unfolding fire_fallback
rearms now f p h s l = rw (unapplied, s, early)
  where
    unapplied : leb f.for_gen p.applied_gen ≡ false
    unapplied = ground arith

    early : ltb now f.deadline ≡ true
    early = ground arith

next_run_ends :
    (go : ℕ → Fallback → Proxy → Option (Proxy × ℕ)) (now : ℕ) (q : Proxy) (fs : List Fallback)
    → next_run go now fs q fs ≡ some (q, now)
unfolding next_run
next_run_ends go now q [] = refl
next_run_ends go now q (f ∷ fs) = ground arith

next_run_rearmed :
    (go : ℕ → Fallback → Proxy → Option (Proxy × ℕ)) (now : ℕ) (q : Proxy) (f : Fallback)
    (fs : List Fallback)
    → next_run go now fs q (f ∷ fs) ≡ go (now + f.delay) f (record q { fallbacks = fs })
unfolding next_run
next_run_rearmed go now q f fs = ground arith

stays :
    (now : ℕ) (f : Fallback) (p : Proxy)
    → leb f.for_gen p.applied_gen ≡ true
    → fire_fallback now f p ≡ p
unfolding fire_fallback
stays now f p h = rw h

releases_now :
    (now : ℕ) (f : Fallback) (p : Proxy)
    → p.applied_gen < f.for_gen
    → (p.saw_config_pull && ltb now f.deadline) ≡ false
    → fire_fallback now f p ≡ record p { applied_gen = f.for_gen }
unfolding fire_fallback
releases_now now f p h w =
    let unapplied : leb f.for_gen p.applied_gen ≡ false = ground arith in rw (unapplied, w)

-- When the last callback runs, the first being at `now`.
last_at : ℕ → Fallback → Proxy → ℕ
last_at now f p =
    if not (leb f.for_gen p.applied_gen) && p.saw_config_pull then now + (f.deadline - now) else now

ends_at_cap :
    (now t : ℕ) (f : Fallback) (p : Proxy)
    → leb f.for_gen p.applied_gen ≡ false
    → (p.saw_config_pull && ltb now f.deadline) ≡ true
    → t ≤ f.deadline - now
    → last_at (now + t) f p ≡ last_at now f p
unfolding last_at
ends_at_cap now t f p n w l =
    let saw : p.saw_config_pull ≡ true = ground arith in rw (n, saw) (omega arith)

at_once :
    (now : ℕ) (f : Fallback) (p : Proxy)
    → leb f.for_gen p.applied_gen ≡ false
    → (p.saw_config_pull && ltb now f.deadline) ≡ false
    → now ≡ last_at now f p
unfolding last_at
at_once now f p n r = elim (Bool-cases p.saw_config_pull) [
  | inl y ↦ let passed : ltb now f.deadline ≡ false = ground arith in rw (n, y) (ground arith)
  | inr m ↦ rw (n, m) refl
]

-- With a positive delay, and fuel beyond the time left until the deadline, the callbacks of one
-- armed fallback end with its generation applied. Where the first runs with no generation applied that
-- is as late, and a pull has been seen, the last one runs at the deadline, or at once if that has passed;
-- otherwise the first is the last.
pub run_timer-releases :
    (fuel now : ℕ) (f : Fallback) (p : Proxy)
    → 0 < f.delay
    → f.deadline - now < fuel
    → (q : Proxy) × (end : ℕ) × (run_timer fuel now f p ≡ some (q, end))
      × (is_applied f.for_gen q ≡ true)
      × (q.scope ≡ p.scope)
      × (q.fallbacks ≡ p.fallbacks)
      × (end ≡ (
          if not (is_applied f.for_gen p) && p.saw_config_pull
          then now + (f.deadline - now)
          else now))
unfolding run_timer last_at
run_timer-releases zero now f p d l = elim l [ ]
run_timer-releases (suc fuel) now f p d l = elim (Bool-cases (leb f.for_gen p.applied_gen)) [
  | inl y ↦ (
    p,
    now,
    ap (λ q. next_run (run_timer fuel) now p.fallbacks q q.fallbacks) (stays now f p y)
        ∙ next_run_ends (run_timer fuel) now p p.fallbacks,
    y,
    refl,
    refl,
    rw y refl,
  )
  | inr n ↦ elim (Bool-cases (p.saw_config_pull && ltb now f.deadline)) [
    | inl w ↦
        let t = min f.delay (f.deadline - now) in
        let (q, end, e, a, s, b, k) =
          run_timer-releases fuel (now + t) (record f { delay = t }) p (ground arith)
            (ground arith) in
        (
          q,
          end,
          ap (λ q. next_run (run_timer fuel) now p.fallbacks q q.fallbacks)
                (rearms now f p (ground arith) (ground arith) (ground arith))
              ∙ next_run_rearmed (run_timer fuel) now _ (record f { delay = t }) p.fallbacks
              ∙ e,
          a,
          s,
          b,
          k ∙ ends_at_cap now t f p n w (omega arith),
        )
    | inr r ↦ (
      record p { applied_gen = f.for_gen },
      now,
      ap (λ q. next_run (run_timer fuel) now p.fallbacks q q.fallbacks)
            (releases_now now f p (ground arith) r)
          ∙ next_run_ends (run_timer fuel) now _ p.fallbacks,
      ground arith,
      refl,
      refl,
      at_once now f p n r,
    )
  ]
]
