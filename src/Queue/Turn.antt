-- ===== src/Queue/Turn.antt =====
-- Whose turn it is to be connected: `is_our_turn`.
pub mod Fair
use vx_pbx.Base.{ℕ, ◌+◌, Bool, true, false, not, ◌&&◌, ◌||◌, List, [], ◌∷◌}
use vx_pbx.Base.Tests.{ltb, ◌==◌, if◌then◌else◌}
use vx_pbx.Queue.Types.{QueueEnt, CallQueue}
use vx_pbx.Queue.Members.{num_available_members}

-- The walk from the head of the line to the caller at `me`, past callers who are not being
-- connected (`idx` of them), and the test `ch && idx < avl` behind it.
unfoldable pub turn_loop : ℕ → ℕ → ℕ → List QueueEnt → Bool
turn_loop avl idx me [] = false
turn_loop avl idx me (ch ∷ rest) =
    let further = turn_loop avl (if ch.pending then idx else idx + 1) me rest in
    if ltb idx avl && not (ch.address == me) then further else ltb idx avl

unfoldable pub is_our_turn : ℕ → CallQueue → QueueEnt → Bool
is_our_turn now q qe =
    turn_loop (num_available_members now q) 0 qe.address q.head && (q.autofill || qe.position == 1)
