-- ===== src/Modules/Aggregator.antt =====
-- client_aggregator_t of src/modules/client_aggregator.cpp: the barrier at which the threads of the
-- backend meet, one for each client of the node. A thread that waits on the condition variable is one
-- that has been answered `none`; what it does when it has the lock again is `resume`.
pub mod Laws
mod Tests
use veloc.Base.{
  ℕ, ◌+◌, ◌≡◌, Bool, true, false, Option, none, some, List, [], ◌∷◌, ◌++◌, ltb, ◌==◌, length,
  if◌then◌else◌,
}
use veloc.Base.Int.{ℤ, pos}
use veloc.Base.IntMap.{IntMap, insert}
use veloc.Command.{Command, Opcode}
use veloc.Queue.{ignored}

-- cmds[o] and res[o] for one of the two commands that are collected; a result that is missing from
-- the map is 0.
pub record Round : Type 0 where
  pub cmds : List Command
  pub res : ℤ

pub record State (S : Type 0) : Type 0 where
  pub client_set : IntMap (Unit {0})
  pub checkpoint : Round
  pub restart : Round
  -- what the functions of the module behind it work on
  pub inner : S

abbrev pub empty_round : Round
empty_round = record { cmds = []; res = pos 0 }

-- The constructor: the limit of the configuration, or the number of processors.
unfoldable pub make : Option ℕ → ℕ → ℕ
make none hardware_concurrency = hardware_concurrency
make (some n) hardware_concurrency = n

module _ {S : Type 0} (agg_function : List Command → S → ℤ × S)
    (single_function : Command → S → ℤ × S) (max_parallelism : ℕ) where
  -- What a thread does with the lock: it adds its command, and the last one of a round carries all
  -- of them out. `n` is the number of clients.
  unfoldable pub collect : ℕ → Command → Round → S → Option ℤ × Round × S
  collect n c r s =
      let cmds = r.cmds ++ c ∷ [] in
      if length cmds == n
      then (let (res, s') = agg_function cmds s in (some res, record { cmds = []; res = res }, s'))
      else (none, record r { cmds = cmds }, s)

  abbrev single : Command → State S → Option ℤ × State S
  single c st = let (res, s) = single_function c st.inner in (some res, record st { inner = s })

  abbrev too_many : State S → Bool
  too_many st = ltb max_parallelism (length st.client_set)

  -- process_command, up to its answer or its wait.
  dispatch : Opcode → Command → State S → Option ℤ × State S
  unfolding collect
  dispatch Opcode.init c st =
      single c (record st { client_set = insert c.unique_id tt st.client_set })
  dispatch Opcode.test c st = single c st
  dispatch Opcode.checkpoint c st =
      if too_many st
      then (some ignored, st)
      else (let (res, r, s) = collect (length st.client_set) c st.checkpoint st.inner in
          (res, record st { checkpoint = r; inner = s }))
  dispatch Opcode.restart c st =
      if too_many st
      then (some ignored, st)
      else (let (res, r, s) = collect (length st.client_set) c st.restart st.inner in
          (res, record st { restart = r; inner = s }))
  dispatch Opcode.status c st = (some ignored, st)

  unfoldable pub process_command : Command → State S → Option ℤ × State S
  unfolding dispatch
  process_command c st = dispatch c.command c st

-- The loop of a thread that waits, when it has been notified.
unfoldable pub resume : Round → Option ℤ
resume r = if ltb 0 (length r.cmds) then none else some r.res
