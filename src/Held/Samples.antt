-- ===== src/Held/Samples.antt =====
-- Tests of the held requests: one is held, and an edit of its document comes.
use gopls_lazy.Base.{◌≤◌, str, [], ◌∷◌, ◌≡◌, refl}
use gopls_lazy.Held.{HeldReq, Holding, register_held_def, release_held_defs}
use gopls_lazy.Held.Release.{held_before_change}
use gopls_lazy.Held.Order.{writes, holds, nothing, next, WasHeld}

abbrev req : HeldReq
req = record { id = 4; raw = str "definition" }

abbrev idle : Holding
idle = record { held_defs = []; fired = []; to_server = [] }

abbrev holding : Holding
holding = register_held_def (str "f") req idle

held_before_change_example :
    (writes 4 holding.to_server ≤ 1)
    × (WasHeld (str "f") 4 ((str "f", req) ∷ [])
        → writes 4 (release_held_defs (str "f") holding).to_server ≡ 1)
unfolding gopls_lazy.Held.has_id
held_before_change_example =
    held_before_change holding ((str "f", req) ∷ []) (str "f") 4
      (next nothing (holds (str "f") req refl))
