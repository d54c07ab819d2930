-- ===== src/Queue/Ipc/History.antt =====
-- The queue under any interleaving of its clients and of the backend's workers. A run is a list of
-- labels, the latest first, and what one client has seen of it is its history.
use veloc.Base.{ℕ, suc, ◌≡◌, Bool, true, false, some, List, [], ◌∷◌, ◌++◌, if◌then◌else◌, ◌==◌}
use veloc.Base.Int.{ℤ, ◌==ℤ◌}
use veloc.Command.{Command}
use veloc.Queue.Clients.{Clients, get}
use veloc.Queue.Ipc.{Dequeued, connect, enqueue, wait_completion, dequeue_any, set_completion}

pub data Label : Type 0 where
  connected : ℤ → Label
  enqueued started : ℤ → Command → Label
  finished : ℤ → ℤ → Label
  reaped : ℤ → Bool → ℤ → Label

-- Whether a ticket is still in a progress list.
abbrev pub has_ticket : ℕ → List (ℕ × Command) → Bool
has_ticket t [] = false
has_ticket t ((u, e) ∷ ps) = if t == u then true else has_ticket t ps

-- One call: by a client, or by the backend. A completion function is called for an element that
-- is in progress, since the worker that holds it calls it once.
pub data Step (s : Clients) (l : Label) (t : Clients) : Type 0 where
  connects : (id : ℤ) → l ≡ connected id → t ≡ connect id s → Step s l t
  enqueues : (id : ℤ) (e : Command) → l ≡ enqueued id e → t ≡ enqueue id e s → Step s l t
  starts :
      (d : Dequeued)
      → dequeue_any s ≡ some d
      → l ≡ started d.client d.command
      → t ≡ d.table
      → Step s l t
  finishes :
      (id : ℤ) (ticket : ℕ) (status : ℤ)
      → has_ticket ticket (get id s).progress ≡ true
      → l ≡ finished id status
      → t ≡ set_completion id ticket status s
      → Step s l t
  reaps :
      (id : ℤ) (reset : Bool) (status : ℤ)
      → wait_completion id reset s ≡ some (status, t)
      → l ≡ reaped id reset status
      → Step s l t

pub data Run : List Label → Clients → Type 0 where
  begin : Run [] []
  step : {ls : List Label} {l : Label} {s t : Clients} → Run ls s → Step s l t → Run (l ∷ ls) t

-- What a client has sent, what of it the backend has taken up, how many of these have completed,
-- and the statuses that have come in since the last reset.
pub record History : Type 0 where
  pub sent : List Command
  pub taken : List Command
  pub done : ℕ
  pub statuses : List ℤ

unfoldable pub note : ℤ → Label → History → History
note id (connected j) h = h
note id (enqueued j e) h = if id ==ℤ j then record h { sent = h.sent ++ e ∷ [] } else h
note id (started j e) h = if id ==ℤ j then record h { taken = h.taken ++ e ∷ [] } else h
note id (finished j status) h =
    if id ==ℤ j then record h { done = suc h.done; statuses = h.statuses ++ status ∷ [] } else h
note id (reaped j reset status) h =
    if id ==ℤ j then (if reset then record h { statuses = [] } else h) else h

unfoldable pub history : ℤ → List Label → History
history id [] = record { sent = []; taken = []; done = 0; statuses = [] }
history id (l ∷ ls) = note id l (history id ls)
