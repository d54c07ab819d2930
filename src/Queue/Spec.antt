-- ===== src/Queue/Spec.antt =====
-- What the clients of a queue rely on, whatever carries it: an abstract machine that keeps for each
-- client the requests that wait, the number of those that run and the status so far. It forgets the
-- order of the clients, the tickets and the lists in progress. A queue that is held to it is a value
-- of Implementation: ipc_queue.hpp and, for some of its calls only, thallium_queue.hpp of src/common.
pub mod Laws
use veloc.Base.{ℕ, suc, ◌-◌, ◌≡◌, Bool, List, [], ◌∷◌, ◌++◌, if◌then◌else◌}
use veloc.Base.Int.{ℤ, ◌==ℤ◌}
use veloc.Command.{Command}
use veloc.Queue.{success, merge}
use veloc.Queue.Ipc.History.{Label, connected, enqueued, started, finished, reaped}

pub record Jobs : Type 0 where
  pub waiting : List Command
  pub running : ℕ
  pub verdict : ℤ

abbrev pub idle : Jobs
idle = record { waiting = []; running = 0; verdict = success }

abbrev pub State : Type 0
State = ℤ → Jobs

abbrev pub behind : List Command → List Command
behind [] = []
behind (e ∷ es) = es

-- What an event makes of the jobs of the client that it concerns, and when it may happen.
unfoldable pub effect : Label → Jobs → Jobs
unfolding merge
effect (connected j) a = a
effect (enqueued j e) a = record a { waiting = a.waiting ++ e ∷ [] }
effect (started j e) a = record a { waiting = behind a.waiting; running = suc a.running }
effect (finished j status) a = record a {
  running = a.running - 1;
  verdict = merge a.verdict status;
}
effect (reaped j reset status) a = record a { verdict = if reset then success else a.verdict }

abbrev pub client_of : Label → ℤ
client_of (connected j) = j
client_of (enqueued j e) = j
client_of (started j e) = j
client_of (finished j status) = j
client_of (reaped j reset status) = j

abbrev pub Allowed : Label → Jobs → Type 0
Allowed (connected j) a = Unit
Allowed (enqueued j e) a = Unit
Allowed (started j e) a = (rest : List Command) × (a.waiting ≡ e ∷ rest)
Allowed (finished j status) a = (n : ℕ) × (a.running ≡ suc n)
Allowed (reaped j reset status) a = (a.waiting ≡ []) × (a.running ≡ 0) × (status ≡ a.verdict)

abbrev pub Event : State → Label → State → Type 0
Event s l t =
    Allowed l (s (client_of l))
    × ((id : ℤ) → t id ≡ (if id ==ℤ client_of l then effect l (s id) else s id))

pub data Trace : List Label → State → Type 0 where
  begin : {s : State} → ((id : ℤ) → s id ≡ idle) → Trace [] s
  event : {ls : List Label} {l : Label} {s t : State} → Trace ls s → Event s l t → Trace (l ∷ ls) t

-- A queue, the steps that it can make, and how they are those of the machine.
pub record Implementation : Type 1 where
  pub Table : Type 0
  pub initial : Table
  pub Step : Table → Label → Table → Type 0
  pub jobs : Table → State
  pub starts_idle : (id : ℤ) → jobs initial id ≡ idle
  pub simulates : (s t : Table) (l : Label) → Step s l t → Event (jobs s) l (jobs t)

pub data Reached (I : Implementation) : List Label → I.Table → Type 0 where
  initially : Reached I [] I.initial
  further :
      {ls : List Label} {l : Label} {s t : I.Table}
      → Reached I ls s
      → I.Step s l t
      → Reached I (l ∷ ls) t
