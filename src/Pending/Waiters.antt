-- ===== src/Pending/Waiters.antt =====
-- Each waiter gets at most one response, so that no send on its channel blocks.
use gopls_lazy.Base.{
  ℕ, ◌+◌, ◌≤◌, true, if◌then◌else◌, Str, str_eq, none, some, List, [], ◌∷◌, Map, lookup, insert,
  delete, ◌≡◌, refl, arith, ◌==◌, Bool-cases, Option-cases, inl, inr,
}
use gopls_lazy.Pending.{
  Message, Response, Table, register, unregister, register_own, send, deliver, fail_all,
  fail_pending,
}

-- How many entries lead to the channel.
unfoldable pub entries_of : ℕ → Map ℕ → ℕ
entries_of ch [] = 0
entries_of ch ((id, c) ∷ m) = (if c == ch then 1 else 0) + entries_of ch m

-- How many responses the channel was sent.
unfoldable pub count : ℕ → List (ℕ × Response) → ℕ
count ch [] = 0
count ch ((c, r) ∷ sent) = (if c == ch then 1 else 0) + count ch sent

pub data Step (t : Table) : Table → Type 0 where
  registers : (id : Str) → Step t (register id t).0
  registers_own : (own_id : ℕ → Str) → Step t (register_own own_id t).0
  unregisters : (id : Str) → Step t (unregister id t)
  delivers : (id : Str) (m : Message) → Step t (deliver id m t).0
  fails : Step t (fail_pending t)

abbrev pub empty : Table
empty = record { seq = 0; channels = 0; pending = []; sent = [] }

pub data Reach : Table → Type 0 where
  here : Reach empty
  next : {t u : Table} → Reach t → Step t u → Reach u

entries_of-insert :
    (ch c : ℕ) (id : Str) (m : Map ℕ)
    → entries_of ch (insert id c m) ≤ (if c == ch then 1 else 0) + entries_of ch m
unfolding entries_of insert
entries_of-insert ch c id [] = ground arith
entries_of-insert ch c id ((j, d) ∷ m) = ground (arith, entries_of-insert ch c id m)

entries_of-delete : (ch : ℕ) (id : Str) (m : Map ℕ) → entries_of ch (delete id m) ≤ entries_of ch m
unfolding entries_of delete
entries_of-delete ch id [] = omega arith
entries_of-delete ch id ((j, d) ∷ m) = ground (arith, entries_of-delete ch id m)

entries_of-lookup :
    (ch c : ℕ) (id : Str) (m : Map ℕ)
    → lookup id m ≡ some c
    → (if c == ch then 1 else 0) + entries_of ch (delete id m) ≤ entries_of ch m
unfolding entries_of delete lookup
entries_of-lookup ch c id [] h = cc
entries_of-lookup ch c id ((j, d) ∷ m) h = elim (Bool-cases (str_eq j id)) [
  | inl y ↦ let e : d ≡ c = ground arith in ground (arith, entries_of-delete ch id m)
  | inr n ↦ ground (arith, entries_of-lookup ch c id m)
]

count-fail_all :
    (ch : ℕ) (m : Map ℕ) (sent : List (ℕ × Response))
    → count ch (fail_all m sent) ≡ entries_of ch m + count ch sent
unfolding fail_all count entries_of
count-fail_all ch [] sent = omega arith
count-fail_all ch ((id, c) ∷ m) sent = ground (arith, count-fail_all ch m ((c, none) ∷ sent))

-- One entry or one response for a channel in use, and none for those that are still to come.
abbrev pub IsSingle : Table → Type 0
IsSingle t =
    (ch : ℕ)
    → (entries_of ch t.pending + count ch t.sent ≤ 1)
      × (t.channels ≤ ch → entries_of ch t.pending + count ch t.sent ≡ 0)

register-IsSingle : (id : Str) (t : Table) → IsSingle t → IsSingle (register id t).0
unfolding register
register-IsSingle id t h ch =
    let (a, b) = h ch in ground (arith, entries_of-insert ch t.channels id t.pending)

deliver-IsSingle : (id : Str) (m : Message) (t : Table) → IsSingle t → IsSingle (deliver id m t).0
unfolding deliver send count
deliver-IsSingle id m t h ch =
    let (a, b) = h ch in
    elim (Option-cases (lookup id t.pending)) [
      | inl n ↦ rw (n, deliver) (ground (arith, entries_of-delete ch id t.pending))
      | inr (c, e) ↦ rw (e, deliver) (ground (arith, entries_of-lookup ch c id t.pending e))
    ]

Step-IsSingle : (t u : Table) → Step t u → IsSingle t → IsSingle u
unfolding unregister fail_pending register_own entries_of
Step-IsSingle t u (registers id) h = register-IsSingle id t h
Step-IsSingle t u (registers_own own_id) h =
    register-IsSingle (own_id (t.seq + 1)) (record t { seq = t.seq + 1 }) h
Step-IsSingle t u (unregisters id) h =
    λ ch. let (a, b) = h ch in ground (arith, entries_of-delete ch id t.pending)
Step-IsSingle t u (delivers id m) h = deliver-IsSingle id m t h
Step-IsSingle t u fails h =
    λ ch. let (a, b) = h ch in ground (arith, count-fail_all ch t.pending t.sent)

Reach-IsSingle : (t : Table) → Reach t → IsSingle t
unfolding entries_of count
Reach-IsSingle t here = λ ch. (omega arith, λ _. omega arith)
Reach-IsSingle t (next {t = s} r p) = Step-IsSingle s t p (Reach-IsSingle s r)

entries_of-some : (ch : ℕ) (id : Str) (m : Map ℕ) → lookup id m ≡ some ch → 1 ≤ entries_of ch m
entries_of-some ch id m h = ground (arith, entries_of-lookup ch ch id m h)

-- After any sequence of registrations, timeouts, responses and failures of the connection, no channel
-- was sent two responses, and none that waits in the table was sent one. A waiter in the table gets
-- exactly one by a response with its id, and exactly one when the connection fails.
pub one_response :
    (t : Table)
    → Reach t
    → (ch : ℕ)
    → (entries_of ch t.pending + count ch t.sent ≤ 1)
      × ((id : Str) (m : Message)
          → lookup id t.pending ≡ some ch
          → ((deliver id m t).1 ≡ true)
            × (count ch (deliver id m t).0.sent ≡ 1)
            × (count ch (fail_pending t).sent ≡ 1))
unfolding deliver send fail_pending count
one_response t r ch =
    let (a, b) = Reach-IsSingle t r ch in
    (
      a,
      λ id m e.
          let some_entry = entries_of-some ch id t.pending e in
          rw (e, deliver) (refl, ground arith, ground (arith, count-fail_all ch t.pending t.sent)),
    )
