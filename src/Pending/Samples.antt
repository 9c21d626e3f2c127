-- ===== src/Pending/Samples.antt =====
-- Tests of the tables of requests in flight.
use gopls_lazy.Base.{
  ℕ, ◌+◌, ◌≤◌, Bool, true, false, ◌∷◌, Str, str, Option, none, some, [], lookup, ◌≡◌, refl,
}
use gopls_lazy.Pending.{
  Message, Table, register, unregister, deliver, fail_pending, handle_server_response,
  configuration_result,
}
use gopls_lazy.Pending.Waiters.{
  entries_of, count, Reach, here, next, registers, delivers, empty, one_response,
}

-- Two requests in flight, of which the first is answered.
abbrev response : Message
response = record { id = some (str "1"); method = []; params = []; result = str "r" }

abbrev waiting : Table
waiting = (deliver (str "1") response (register (str "2") (register (str "1") empty).0).0).0

waiting-Reach : Reach waiting
waiting-Reach =
    next (next (next here (registers (str "1"))) (registers (str "2")))
      (delivers (str "1") response)

forwards_unknown : (handle_server_response response waiting).1 ≡ false
unfolding handle_server_response gopls_lazy.Base.str_eq deliver lookup register
    gopls_lazy.Base.insert gopls_lazy.Pending.send gopls_lazy.Base.delete
forwards_unknown = refl

fills_items : configuration_result (some 2) (str "{a}" ∷ []) ≡ str "{a}" ∷ str "{}" ∷ []
unfolding configuration_result gopls_lazy.Pending.config_items gopls_lazy.Base.str_eq
fills_items = refl

one_response_example :
    (entries_of 1 waiting.pending + count 1 waiting.sent ≤ 1)
    × ((id : Str) (m : Message)
        → lookup id waiting.pending ≡ some 1
        → ((deliver id m waiting).1 ≡ true)
          × (count 1 (deliver id m waiting).0.sent ≡ 1)
          × (count 1 (fail_pending waiting).sent ≡ 1))
one_response_example = one_response waiting waiting-Reach 1
