-- ===== src/Backend.antt =====
-- The main loop of the backend, start_main_loop of src/backend/work_queue.cpp: requests are handed to
-- threads, of which the loop keeps the futures in a queue. The queue of requests and the modules are
-- those of Queue/Ipc and of Modules/Manager; what the modules do for a request is one step.
pub mod Bound
pub mod Owned
pub mod Runs
mod Tests
use veloc.Base.{
  ℕ, ◌+◌, ◌≡◌, Bool, true, false, Option, none, some, List, [], ◌∷◌, ◌++◌, leb, if◌then◌else◌,
  length,
}
use veloc.Base.Int.{ℤ}
use veloc.Command.{Command}
use veloc.Queue.Clients.{Clients}
use veloc.Queue.Ipc.{Dequeued, dequeue_any, set_completion}
use veloc.Modules.Manager.{Method, notify_command}

-- A future: the request, what its completion function is bound to, and whether its thread is done.
pub record Job : Type 0 where
  pub client : ℤ
  pub ticket : ℕ
  pub command : Command
  pub is_done : Bool

-- The loop is about to dequeue, or waits for the first future.
pub data Phase : Type 0 where
  dequeues waits : Phase

pub record State (S : Type 0) : Type 0 where
  pub table : Clients
  pub work_queue : List Job
  pub phase : Phase
  pub modules : S

-- max_parallelism of the configuration, or the number of processors.
abbrev pub limit : Option ℕ → ℕ → ℕ
limit none hardware_concurrency = hardware_concurrency
limit (some n) hardware_concurrency = n

abbrev pub job_of : Dequeued → Job
job_of d = record { client = d.client; ticket = d.ticket; command = d.command; is_done = false }

module _ {S : Type 0} (max_parallelism : ℕ) (modules : List (Method S)) where
  -- One request is handed to a thread.
  unfoldable pub hand_over : Dequeued → State S → State S
  hand_over d s =
      let work = s.work_queue ++ job_of d ∷ [] in
      record s {
        table = d.table;
        work_queue = work;
        phase = if leb max_parallelism (length work) then waits else dequeues;
      }

  -- The loop in the phase in which it dequeues; `none` is a wait for a request.
  unfoldable pub dequeue : State S → Option (State S)
  unfolding hand_over
  dequeue s = elim (dequeue_any s.table) [ none ↦ none | some d ↦ some (hand_over d s) ]

  -- work_queue.front().wait() and work_queue.pop(); `none` is a wait for the thread.
  pop_front : State S → List Job → Option (State S)
  pop_front s [] = none
  pop_front s (j ∷ js) =
      if j.is_done then some (record s { work_queue = js; phase = dequeues }) else none

  unfoldable pub wait_front : State S → Option (State S)
  unfolding pop_front
  wait_front s = pop_front s s.work_queue

  -- f(modules.notify_command(c)) of one of the threads.
  unfoldable pub run_job : List Job → Job → List Job → State S → State S
  run_job before j behind s =
      let (status, modules') = notify_command modules j.command s.modules in
      record s {
        table = set_completion j.client j.ticket status s.table;
        work_queue = before ++ record j { is_done = true } ∷ behind;
        modules = modules';
      }
