-- ===== src/Ratelimit/Tests.antt =====
-- Concrete runs of core/ratelimit.py.
use runnerup_chat.Base.{◌≤◌, [], ◌∷◌, arith}
use runnerup_chat.Ratelimit.{empty_slot}
use runnerup_chat.Ratelimit.Window.{recent, run_calls, window_bound}

window_bound_example : recent 1000 30 (run_calls 1000 2 (10 ∷ 20 ∷ 30 ∷ []) (empty_slot, [])).1 ≤ 2
window_bound_example =
    window_bound 1000 2 (10 ∷ 20 ∷ 30 ∷ []) 30 (omega arith, (omega arith, (omega arith, tt)))
      (omega arith)
