-- ===== src/Queue/Socket/Wakeup.antt =====
-- No client of the socket queue waits for a reply that does not come any more.
use veloc.Base.{ℕ, suc, ◌≡◌, refl, ap, true, false, Option, some, List, [], ◌∷◌, length, All}
use veloc.Base.Int.{ℤ, negsuc, ◌==ℤ◌}
use veloc.Command.{Command}
use veloc.Queue.{is_idle}
use veloc.Queue.Socket.{
  Client, ClientMap, enqueue, Dequeued, dequeue_any, set_completion, first_free, slot, max_clients,
}

-- A client that waits has a command that is not completed.
abbrev pub IsAwaited : Client → Type 0
IsAwaited q = q.waiting ≡ true → is_idle q.lists ≡ false

pub data Step : ClientMap → ClientMap → Type 0 where
  enqueues : {qs : ClientMap} (e : Command) (sock : ℤ) → Step qs (enqueue e sock qs).1
  dequeues : {qs : ClientMap} (d : Dequeued) → dequeue_any qs ≡ some d → Step qs d.table
  completes :
      {qs : ClientMap} (sock : ℤ) (ticket : ℕ) (status : ℤ)
      → Step qs (set_completion sock ticket status qs).1

pub data Reachable : ClientMap → Type 0 where
  begin : Reachable []
  step : {qs rs : ClientMap} → Reachable qs → Step qs rs → Reachable rs

abbrev pub AllAwaited : ClientMap → Type 0
AllAwaited = All λ (sock, q). IsAwaited q

first_free-full :
    (fds : List ℤ) → All (λ fd. (fd ==ℤ negsuc 0) ≡ false) fds → first_free fds ≡ length fds
unfolding first_free
first_free-full [] _ = refl
first_free-full (fd ∷ fds) (h, hs) = rw h (ap suc (first_free-full fds hs))

-- With as many connections as the array has elements the next one is not refused: its slot is
-- MAX_CLIENTS, which lies behind the end of the array.
pub slot_out_of_bounds :
    (fds : List ℤ)
    → All (λ fd. (fd ==ℤ negsuc 0) ≡ false) fds
    → length fds ≡ max_clients
    → slot fds ≡ some max_clients
unfolding slot
slot_out_of_bounds fds h e = rw (first_free-full fds h, e) refl
