-- ===== src/Modules/Watchdog.antt =====
-- client_watchdog_t of src/modules/client_watchdog.cpp: the deadlines by which the clients have to
-- be heard of again.
pub mod Laws
use veloc.Base.{
  ℕ, ◌+◌, ◌-◌, Bool, true, false, Option, none, some, List, [], ◌∷◌, ltb, if◌then◌else◌,
}
use veloc.Base.Int.{ℤ, pos, negsuc, pos_part, neg_part, ◌==ℤ◌}
use veloc.Base.IntMap.{IntMap, find, assign}
use veloc.Command.{Command, Opcode}
use veloc.Queue.{success, failure, ignored}

-- client_map
abbrev pub ClientMap : Type 0
ClientMap = IntMap ℕ

-- now() + seconds(timeout), also for a negative timeout
abbrev pub deadline : ℕ → ℤ → ℕ
deadline now timeout = now + pos_part timeout - neg_part timeout

dispatch : Opcode → ℤ → ℕ → Command → ClientMap → ℤ × ClientMap
dispatch Opcode.init timeout now c m = (success, assign c.unique_id (deadline now timeout) m)
dispatch Opcode.checkpoint timeout now c m = elim (find c.unique_id m) [
  | none ↦ (failure, m)
  | some t ↦ (success, assign c.unique_id (deadline now timeout) m)
]
dispatch _ timeout now c m = (ignored, m)

unfoldable pub process_command : ℤ → ℕ → Command → ClientMap → ℤ × ClientMap
unfolding dispatch
process_command timeout now c m =
    if timeout ==ℤ pos 0 then (ignored, m) else dispatch c.command timeout now c m

-- The clients that one round of timeout_check reports.
unfoldable pub timed_out : ℕ → ClientMap → List ℤ
timed_out now [] = []
timed_out now ((id, t) ∷ m) = let rest = timed_out now m in if ltb t now then id ∷ rest else rest
