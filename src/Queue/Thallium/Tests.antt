-- ===== src/Queue/Thallium/Tests.antt =====
-- A client of the queue over remote calls whose request fails, and the theorems at that run.
use veloc.Base.{◌≡◌, refl, true, some, List, [], ◌∷◌}
use veloc.Base.Int.{pos, ◌==ℤ◌}
use veloc.Base.Bytes.{codes}
use veloc.Command.{Command, Opcode}
use veloc.Queue.{success, failure, finish}
use veloc.Queue.Clients.{Clients, get, put}
use veloc.Queue.Ipc.History.{Label, enqueued, started, finished}
use veloc.Queue.Thallium.{poll, size, wait_completion, set_completion}
use veloc.Queue.Thallium.Lost.{wait_completion_forgets}

abbrev request : Command
request = record {
  unique_id = pos 3;
  command = Opcode.checkpoint;
  version = pos 1;
  offset = 0;
  name = codes "wave";
  original = [];
}

abbrev sent : Clients
sent = (pos 3, record { status = success; pending = request ∷ []; progress = []; next = 0 }) ∷ []

abbrev taken : Clients
taken =
    (pos 3, record { status = success; pending = []; progress = (0, request) ∷ []; next = 1 }) ∷ []

abbrev over : Clients
over = (pos 3, record { status = failure; pending = []; progress = []; next = 1 }) ∷ []

abbrev reset : Clients
reset = (pos 3, record { status = success; pending = []; progress = []; next = 1 }) ∷ []

abbrev labels : List Label
labels = finished (pos 3) failure ∷ started (pos 3) request ∷ enqueued (pos 3) request ∷ []

-- One request has failed and another one is in progress when the client begins to wait; that one
-- completes while it sleeps.
abbrev second_completes : Clients → Clients
second_completes s = set_completion (pos 3) 0 success s

wait_completion_forgets_example :
    wait_completion
      (pos 3)
      true
      (second_completes ∷ [])
      (put (pos 3) (record (get (pos 3) taken) { status = failure }) taken)
    ≡ wait_completion (pos 3) true (second_completes ∷ []) taken
unfolding size get ◌==ℤ◌
wait_completion_forgets_example =
    wait_completion_forgets (pos 3) failure second_completes [] taken (λ e. cc)

wait_returns_success :
    wait_completion (pos 3) true (second_completes ∷ []) taken ≡ some (success, reset)
unfolding wait_completion poll size get put set_completion finish ◌==ℤ◌
wait_returns_success = refl
