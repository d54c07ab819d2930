-- ===== src/Queue/Ipc.antt =====
-- ipc_queue of src/common/ipc_queue.hpp: the queue over a shared memory segment. A call that waits
-- for a condition returns `none` in a state in which it goes on waiting.
mod Tests
pub mod History
pub mod Invariant
pub mod Delivery
pub mod Refines
use veloc.Base.{ℕ, Bool, true, false, Option, none, some, List, [], ◌∷◌, if◌then◌else◌}
use veloc.Base.Int.{ℤ}
use veloc.Command.{Command}
use veloc.Queue.{Container, Started, success, push, start, finish, is_idle}
use veloc.Queue.Clients.{Clients, get, put, find_non_empty_pending}

-- backend_cleanup removes the segment.
abbrev pub backend_cleanup : Clients → Clients
backend_cleanup s = []

-- The constructor of comm_client_t: find_or_construct.
unfoldable pub connect : ℤ → Clients → Clients
connect id s = put id (get id s) s

unfoldable pub enqueue : ℤ → Command → Clients → Clients
enqueue id e s = put id (push e (get id s)) s

unfoldable pub check_completion : ℤ → Clients → Bool
check_completion id s = is_idle (get id s)

-- wait_completion: the status, and the table in which it has been reset on request.
unfoldable pub wait_completion : ℤ → Bool → Clients → Option (ℤ × Clients)
wait_completion id reset s =
    if is_idle (get id s)
    then some (
      (get id s).status,
      (if reset then put id (record (get id s) { status = success }) s else s),
    )
    else none

-- What dequeue_any returns: the element, the client and the ticket that its completion function
-- is bound to, and the table.
pub record Dequeued : Type 0 where
  pub client : ℤ
  pub command : Command
  pub ticket : ℕ
  pub table : Clients

unfoldable pub take_from : ℤ → Clients → Option Started → Option Dequeued
take_from id s none = none
take_from id s (some d) =
    some
      (record { client = id; command = d.command; ticket = d.ticket; table = put id d.container s })

unfoldable pub dequeue_any : Clients → Option Dequeued
unfolding take_from
dequeue_any s = elim (find_non_empty_pending s) [
  | none ↦ none
  | some id ↦ take_from id s (start (get id s))
]

-- The completion function of an element, called with what its modules returned.
unfoldable pub set_completion : ℤ → ℕ → ℤ → Clients → Clients
set_completion id ticket status s = put id (finish ticket status (get id s)) s
