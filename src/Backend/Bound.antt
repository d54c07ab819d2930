-- ===== src/Backend/Bound.antt =====
-- How many threads the loop lets run.
use veloc.Base.{ℕ, suc, ◌≤◌, ◌≡◌, Bool, true, false, some, List, [], ◌∷◌, ◌++◌, if◌then◌else◌, ◌⊎◌}
use veloc.Queue.Clients.{Clients}
use veloc.Queue.Ipc.History as Ipc
use veloc.Queue.Ipc.History.{Label, connected, enqueued, started, finished, reaped}
use veloc.Modules.Manager.{Method}
use veloc.Backend.{Job, Phase, dequeues, waits, State, dequeue, wait_front, run_job}

-- The threads that are not done.
abbrev pub running : List Job → ℕ
running [] = 0
running (j ∷ js) = if j.is_done then running js else suc (running js)

-- The events of a client.
abbrev pub is_client : Label → Bool
is_client (connected j) = true
is_client (enqueued j e) = true
is_client (started j e) = false
is_client (finished j status) = false
is_client (reaped j reset status) = true

module _ {S : Type 0} (max_parallelism : ℕ) (modules : List (Method S)) where
  -- The loop, and one of the threads that it has started. In between the clients make their calls.
  pub data Step (s t : State S) : Type 0 where
    takes : s.phase ≡ dequeues → dequeue max_parallelism modules s ≡ some t → Step s t
    reaps : s.phase ≡ waits → wait_front max_parallelism modules s ≡ some t → Step s t
    works :
        (before behind : List Job) (j : Job)
        → s.work_queue ≡ before ++ j ∷ behind
        → j.is_done ≡ false
        → t ≡ run_job max_parallelism modules before j behind s
        → Step s t
    clients :
        (table : Clients) (l : Label)
        → is_client l ≡ true
        → Ipc.Step s.table l table
        → t ≡ record s { table = table }
        → Step s t

  pub data Reachable : State S → Type 0 where
    begin :
        (m : S) → Reachable (record { table = []; work_queue = []; phase = dequeues; modules = m })
    step : {s t : State S} → Reachable s → Step s t → Reachable t

  -- Room for one more while the loop dequeues.
  abbrev HasRoom : Phase → ℕ → Type 0
  HasRoom dequeues n = (n ≡ 0) ⊎ (suc n ≤ max_parallelism)
  HasRoom waits n = (n ≡ 1) ⊎ (n ≤ max_parallelism)
