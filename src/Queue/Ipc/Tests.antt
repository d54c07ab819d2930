-- ===== src/Queue/Ipc/Tests.antt =====
-- A client that sends a checkpoint request and waits for it, and the theorems at that run.
use veloc.Base.{◌≡◌, refl, true, some, List, [], ◌∷◌, ◌++◌, ◌+◌, length}
use veloc.Base.Int.{pos, ◌==ℤ◌}
use veloc.Base.Bytes.{codes}
use veloc.Command.{Command, Opcode}
use veloc.Queue.{success, failure, push, start, finish, is_idle}
use veloc.Queue.Status.{merge_all}
use veloc.Queue.Clients.{Clients, get, put, find_non_empty_pending}
use veloc.Queue.Ipc.{connect, enqueue, dequeue_any, wait_completion, set_completion}
use veloc.Queue.Ipc.History.{
  Label, connected, enqueued, started, finished, connects, enqueues, starts, finishes, Run, begin,
  step, history,
}
use veloc.Queue.Spec.{Trace}
use veloc.Queue.Ipc.Refines.{abstraction, Run-refines}
use veloc.Queue.Ipc.Delivery.{Run-delivery, wait_completion_sound}

abbrev request : Command
request = record {
  unique_id = pos 3;
  command = Opcode.checkpoint;
  version = pos 1;
  offset = 0;
  name = codes "wave";
  original = [];
}

sent : Clients
unfolding connect enqueue push get put
sent = enqueue (pos 3) request (connect (pos 3) [])

sent-Run : Run (enqueued (pos 3) request ∷ connected (pos 3) ∷ []) sent
unfolding sent
sent-Run = step (step begin (connects (pos 3) refl refl)) (enqueues (pos 3) request refl refl)

after : Clients
unfolding sent start
after =
    (pos 3, record { status = success; pending = []; progress = (0, request) ∷ []; next = 1 }) ∷ []

taken-Run : Run (started (pos 3) request ∷ enqueued (pos 3) request ∷ connected (pos 3) ∷ []) after
unfolding after dequeue_any find_non_empty_pending ◌==ℤ◌
taken-Run = step sent-Run (
    starts (record { client = pos 3; command = request; ticket = 0; table = after }) refl refl refl)

finished_table : Clients
unfolding after finish
finished_table = set_completion (pos 3) 0 failure after

done : List Label
done =
    finished (pos 3) failure
    ∷ started (pos 3) request
    ∷ enqueued (pos 3) request
    ∷ connected (pos 3)
    ∷ []

done-Run : Run done finished_table
unfolding done after get finished_table ◌==ℤ◌
done-Run = step taken-Run (finishes (pos 3) 0 failure refl refl refl)

wait_result : (t : Clients) × (wait_completion (pos 3) true finished_table ≡ some (failure, t))
unfolding finished_table wait_completion get put finish set_completion ◌==ℤ◌ is_idle
wait_result = (_, refl)

Run-delivery_example :
    ((history (pos 3) done).sent
      ≡ (history (pos 3) done).taken ++ (get (pos 3) finished_table).pending)
    × (length (history (pos 3) done).taken
        ≡ (history (pos 3) done).done + length (get (pos 3) finished_table).progress)
Run-delivery_example = Run-delivery done finished_table (pos 3) done-Run

Run-refines_example : Trace done (abstraction finished_table)
Run-refines_example = Run-refines done finished_table done-Run

wait_completion_sound_example :
    ((history (pos 3) done).taken ≡ (history (pos 3) done).sent)
    × ((history (pos 3) done).done ≡ length (history (pos 3) done).sent)
    × (failure ≡ merge_all success (history (pos 3) done).statuses)
wait_completion_sound_example =
    wait_completion_sound done finished_table wait_result.0 (pos 3) true failure done-Run
      wait_result.1
