-- ===== src/Pending.antt =====
-- The tables of requests in flight: `pendingOwn` of proxy.go, for what the proxy asks gopls itself, and
-- `pending` of the workerClient of worker.go. An id leads to a channel of capacity one, which is
-- named by a number; `sent` holds what was sent, newest first, with the channel it went to.
pub mod Waiters
pub mod Samples
use gopls_lazy.Base.{
  ℕ, ◌+◌, Bool, true, false, if◌then◌else◌, Str, str, str_eq, Option, none, some, get_or, List, [],
  ◌∷◌, ◌++◌, Map, lookup, insert, delete, ◌&&◌, not, is_some, length, zero, suc, ◌==◌,
}

-- `message`, as far as the dispatch reads it.
pub record Message : Type 0 where
  pub id : Option Str
  pub method : Str
  pub params : Str
  pub result : Str

-- What is sent to a waiter; `none` is the closed-connection sentinel.
abbrev pub Response : Type 0
Response = Option Message

pub record Table : Type 0 where
  pub seq : ℕ
  pub channels : ℕ
  pub pending : Map ℕ
  pub sent : List (ℕ × Response)

-- `workerClient.register`; the channel is new.
unfoldable pub register : Str → Table → Table × ℕ
register id t =
    (record t { channels = t.channels + 1; pending = insert id t.channels t.pending }, t.channels)

-- `workerClient.unregister`, and the end of `askDefinition` after its timeout.
unfoldable pub unregister : Str → Table → Table
unregister id t = record t { pending = delete id t.pending }

-- The id of a request of the proxy's own: a sequence number under a prefix.
unfoldable pub register_own : (ℕ → Str) → Table → Table × ℕ
register_own own_id t = let t' = record t { seq = t.seq + 1 } in register (own_id t'.seq) t'

unfoldable pub send : ℕ → Response → Table → Table
send ch r t = record t { sent = (ch, r) ∷ t.sent }

-- A response: its channel leaves the table, and is sent the message if there is one.
unfoldable pub deliver : Str → Message → Table → Table × Bool
deliver id m t =
    let t' = record t { pending = delete id t.pending } in
    elim (lookup id t.pending) [ none ↦ (t', false) | some ch ↦ (send ch (some m) t', true) ]

-- `handleServerResponse`: the table, and whether the message is kept from the editor.
unfoldable pub handle_server_response : Message → Table → Table × Bool
handle_server_response m t =
    if not (str_eq m.method [])
    then (t, false)
    else elim m.id [ none ↦ (t, false) | some id ↦ deliver id m t ]

-- What `readLoop` does with a message.
pub data ReadAction : Type 0 where
  answered : ReadAction
  to_respond : Message → ReadAction
  ignored : ReadAction

unfoldable pub read_message : Message → Table → Table × ReadAction
read_message m t = elim m.id [
  | none ↦ (t, ignored)
  | some id ↦ if str_eq m.method [] then ((deliver id m t).0, answered) else (t, to_respond m)
]

-- The loop of `failPending`.
unfoldable pub fail_all : Map ℕ → List (ℕ × Response) → List (ℕ × Response)
fail_all [] sent = sent
fail_all ((id, ch) ∷ m) sent = fail_all m ((ch, none) ∷ sent)

-- `failPending`
unfoldable pub fail_pending : Table → Table
fail_pending t = record t { pending = []; sent = fail_all t.pending t.sent }

-- `configurationResult`: one object for each item, or for each setting where there are no items.
unfoldable pub config_items : ℕ → List Str → List Str
config_items zero config = []
config_items (suc n) [] = str "{}" ∷ config_items n []
config_items (suc n) (c ∷ config) = (if str_eq c [] then str "{}" else c) ∷ config_items n config

unfoldable pub configuration_result : Option ℕ → List Str → List Str
configuration_result items config = elim items [
  | none ↦ config_items (length config) config
  | some n ↦ config_items (if n == 0 then length config else n) config
]
