-- ===== src/Backend/Tests.antt =====
-- A backend of one thread that has taken up a request.
use veloc.Base.{ℕ, ◌≡◌, refl, true, false, List, [], ◌∷◌, ◌++◌, ◌+◌}
use veloc.Base.Int.{pos, ◌==ℤ◌}
use veloc.Base.Bytes.{codes}
use veloc.Command.{Command, Opcode}
use veloc.Queue.{success, push, start}
use veloc.Queue.Clients.{Clients, get, put, find_non_empty_pending}
use veloc.Queue.Ipc.{enqueue, dequeue_any, take_from}
use veloc.Queue.Ipc.History as Ipc
use veloc.Queue.Ipc.History.{Label, Run, enqueued, enqueues}
use veloc.Modules.Manager.{Method}
use veloc.Backend.{Job, State, dequeues, waits, dequeue, hand_over}
use veloc.Backend.Bound.{Reachable, begin, step, takes, clients}
use veloc.Backend.Runs.{Reachable-Run}

abbrev request : Command
request = record {
  unique_id = pos 3;
  command = Opcode.checkpoint;
  version = pos 1;
  offset = 0;
  name = codes "wave";
  original = [];
}

-- A module that counts its calls.
abbrev modules : List (Method ℕ)
modules = (λ c n. (success, n + 1)) ∷ []

abbrev sent : Clients
sent = (pos 3, record { status = success; pending = request ∷ []; progress = []; next = 0 }) ∷ []

abbrev taken : Clients
taken =
    (pos 3, record { status = success; pending = []; progress = (0, request) ∷ []; next = 1 }) ∷ []

abbrev job : Job
job = record { client = pos 3; ticket = 0; command = request; is_done = false }

abbrev at_work : State ℕ
at_work = record { table = taken; work_queue = job ∷ []; phase = waits; modules = 0 }

abbrev before_work : State ℕ
before_work = record { table = sent; work_queue = []; phase = dequeues; modules = 0 }

at_work-Reachable : Reachable 1 modules at_work
unfolding dequeue hand_over dequeue_any take_from find_non_empty_pending get put start enqueue push
    ◌==ℤ◌
at_work-Reachable =
    step {s = before_work}
      (step (begin 0)
        (clients sent (enqueued (pos 3) request) refl (enqueues (pos 3) request refl refl) refl))
      (takes refl refl)

Reachable-Run_example :
    ((ls : List Label) × Run ls taken)
    × ((before behind : List Job) (j : Job)
        → job ∷ [] ≡ before ++ j ∷ behind
        → j.is_done ≡ false
        → Ipc.has_ticket j.ticket (get j.client taken).progress ≡ true)
Reachable-Run_example = Reachable-Run 1 modules at_work at_work-Reachable
