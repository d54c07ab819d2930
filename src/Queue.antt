-- ===== src/Queue.antt =====
-- client_queue_t, the pair of lists that each client shares with the active backend, in
-- src/common/ipc_queue.hpp and socket_queue.hpp, and the steps on one such pair that the two have in
-- common. The queues themselves are the children Ipc and Socket; Status has what the returned
-- statuses amount to.
pub mod Status
pub mod Clients
pub mod Ipc
pub mod Spec
pub mod Socket
pub mod Thallium
use veloc.Base.{
  ℕ, suc, ◌+◌, Bool, true, false, ◌&&◌, ◌||◌, Option, none, some, List, [], ◌∷◌, ◌++◌, ◌==◌,
  if◌then◌else◌,
}
use veloc.Base.Int.{ℤ, pos, negsuc, ltb_ℤ, min_ℤ, max_ℤ}
use veloc.Command.{Command}

abbrev pub success : ℤ
success = pos 0

abbrev pub failure : ℤ
failure = negsuc 0

abbrev pub ignored : ℤ
ignored = negsuc 1

-- An iterator into the progress list is a ticket, the position of its element in the order in
-- which the client's elements entered that list; `next` is the ticket that was not yet given.
pub record Container : Type 0 where
  pub status : ℤ
  pub pending : List Command
  pub progress : List (ℕ × Command)
  pub next : ℕ

abbrev pub fresh : Container
fresh = record { status = success; pending = []; progress = []; next = 0 }

-- How set_completion joins the status of a command to that of its client.
unfoldable pub merge : ℤ → ℤ → ℤ
merge old new = if ltb_ℤ old (pos 0) || ltb_ℤ new (pos 0) then min_ℤ old new else max_ℤ old new

-- list::empty
abbrev pub is_empty {ℓ} : {A : Type ℓ} → List A → Bool
is_empty [] = true
is_empty (x ∷ xs) = false

-- pending.push_back(e)
unfoldable pub push : Command → Container → Container
push e c = record c { pending = c.pending ++ e ∷ [] }

pub record Started : Type 0 where
  pub command : Command
  pub ticket : ℕ
  pub container : Container

-- The head of the pending list moves to the end of the progress list.
start_first : Container → List Command → Option Started
start_first c [] = none
start_first c (e ∷ rest) = some (record {
  command = e;
  ticket = c.next;
  container = record c {
    pending = rest;
    progress = c.progress ++ (c.next, e) ∷ [];
    next = suc c.next;
  };
})

unfoldable pub start : Container → Option Started
unfolding start_first
start c = start_first c c.pending

-- progress.erase(it)
unfoldable pub remove_ticket : ℕ → List (ℕ × Command) → List (ℕ × Command)
remove_ticket t [] = []
remove_ticket t ((u, e) ∷ ps) = if t == u then ps else (u, e) ∷ remove_ticket t ps

-- set_completion up to the notification of the client
unfoldable pub finish : ℕ → ℤ → Container → Container
unfolding remove_ticket merge
finish t status c = record c {
  progress = remove_ticket t c.progress;
  status = merge c.status status;
}

-- pending.empty() && progress.empty()
unfoldable pub is_idle : Container → Bool
is_idle c = is_empty c.pending && is_empty c.progress
