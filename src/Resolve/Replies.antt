-- ===== src/Resolve/Replies.antt =====
-- Each request that goes to a worker is answered once, and a rename is never answered in part.
use gopls_lazy.Base.{
  ℕ, ◌+◌, Bool, true, false, Str, str_eq, Option, none, some, List, [], ◌∷◌, ◌≡◌, ◌≢◌, refl, arith,
  Bool-cases, inl, inr, if◌then◌else◌,
}
use gopls_lazy.Resolve.{
  method_rename, Reply, forwarded, result_of, error_of, shown_info, shown_warning, WorkerAnswer,
  failed, no_message, response, handle_worker_error, reply_to, serve_via_worker,
}

-- The request is sent on to gopls.
unfoldable pub is_forward : Reply → Bool
is_forward (forwarded raw) = true
is_forward (result_of id r) = false
is_forward (error_of id e) = false
is_forward shown_info = false
is_forward shown_warning = false

-- The request is answered to the editor.
unfoldable pub is_reply : Reply → Bool
is_reply (forwarded raw) = false
is_reply (result_of id r) = true
is_reply (error_of id e) = true
is_reply shown_info = false
is_reply shown_warning = false

unfoldable pub occurrences : (Reply → Bool) → List Reply → ℕ
occurrences f [] = 0
occurrences f (r ∷ rs) = (if f r then 1 else 0) + occurrences f rs

reply_to-once :
    (failure method id held : Str) (a : WorkerAnswer)
    → occurrences is_forward (reply_to failure method id held a)
        + occurrences is_reply (reply_to failure method id held a)
      ≡ 1
unfolding reply_to handle_worker_error occurrences is_forward is_reply
reply_to-once failure method id held failed = elim (Bool-cases (str_eq method method_rename)) [
  | inl y ↦ rw y refl
  | inr n ↦ rw n refl
]
reply_to-once failure method id held no_message = refl
reply_to-once failure method id held (response e r) = elim (Bool-cases (str_eq e [])) [
  | inl y ↦ rw y refl
  | inr n ↦ rw n refl
]

failure_forwards :
    (failure method id held : Str)
    → occurrences is_forward (handle_worker_error failure method id held)
      ≡ (if str_eq method method_rename then 0 else 1)
unfolding handle_worker_error occurrences is_forward
failure_forwards failure method id held = elim (Bool-cases (str_eq method method_rename)) [
  | inl y ↦ rw y refl
  | inr n ↦ rw n refl
]

-- A request for a worker is either forwarded to gopls or answered to the editor, and that once, whatever
-- the worker gives. When the worker fails, a rename that has an id is not forwarded, and a request of
-- another method is.
pub serve_via_worker-once :
    (failure method held : Str) (request_id : Option Str) (warns : Bool) (a : WorkerAnswer)
    → let replies = serve_via_worker failure method request_id warns held a in
      (occurrences is_forward replies + occurrences is_reply replies ≡ 1)
      × (request_id ≢ none
          → a ≡ failed
          → occurrences is_forward replies ≡ (if str_eq method method_rename then 0 else 1))
unfolding serve_via_worker reply_to occurrences is_forward is_reply
serve_via_worker-once failure method held none warns a = (refl, λ ne f. absurd (ne refl))
serve_via_worker-once failure method held (some i) true a = (
  ground (arith, reply_to-once failure method i held a),
  λ ne f. rw f (ground (arith, failure_forwards failure method i held)),
)
serve_via_worker-once failure method held (some i) false a =
    (reply_to-once failure method i held a, λ ne f. rw f (failure_forwards failure method i held))
