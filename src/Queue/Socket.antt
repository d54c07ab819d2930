-- ===== src/Queue/Socket.antt =====
-- socket_queue of src/common/socket_queue.hpp: the queue over a unix socket. The backend keeps the
-- lists itself; a client that waits sends a STATUS command and blocks until it is sent a reply.
pub mod Wakeup
pub mod Connections
mod Tests
use veloc.Base.{
  ℕ, suc, ◌+◌, Bool, true, false, not, ◌&&◌, Option, none, some, List, [], ◌∷◌, ltb, if◌then◌else◌,
}
use veloc.Base.Int.{ℤ, pos, negsuc, ◌==ℤ◌}
use veloc.Command
use veloc.Command.{Command, Opcode}
use veloc.Queue.{Container, Started, success, fresh, push, start, finish, is_idle, is_empty}

abbrev pub max_clients : ℕ
max_clients = 256

-- client_queue_t of this queue: the lists, and what is known of a client that waits.
pub record Client : Type 0 where
  pub lists : Container
  pub fd : ℤ
  pub waiting : Bool
  pub reset_status : Bool

abbrev pub new_client : Client
new_client = record { lists = fresh; fd = negsuc 0; waiting = false; reset_status = true }

-- client_map, by the socket; the order in which it is gone through is left open.
abbrev pub ClientMap : Type 0
ClientMap = List (ℤ × Client)

unfoldable pub get : ℤ → ClientMap → Client
get sock [] = new_client
get sock ((j, q) ∷ qs) = if sock ==ℤ j then q else get sock qs

unfoldable pub put : ℤ → Client → ClientMap → ClientMap
put sock q [] = (sock, q) ∷ []
put sock q ((j, p) ∷ qs) = if sock ==ℤ j then (j, q) ∷ qs else (j, p) ∷ put sock q qs

-- What is written to a client: its socket, and the status.
abbrev pub Reply : Type 0
Reply = Option (ℤ × ℤ)

unfoldable pub send_wait_reply : Client → Reply × Client
send_wait_reply q =
    if q.waiting && is_idle q.lists
    then (
      some (q.fd, q.lists.status),
      record q {
        waiting = false;
        lists = if q.reset_status then record q.lists { status = success } else q.lists;
      },
    )
    else (none, q)

abbrev pub is_status : Opcode → Bool
is_status Opcode.status = true
is_status _ = false

-- The backend's enqueue, for a command that was read from a socket.
unfoldable pub enqueue : Command → ℤ → ClientMap → Reply × ClientMap
enqueue e sock qs =
    let q = record (get sock qs) { fd = sock } in
    if is_status e.command
    then (let (reply, q') =
          send_wait_reply (record q { waiting = true; reset_status = not (e.version ==ℤ pos 0) }) in
        (reply, put sock q' qs))
    else (none, put sock (record q { lists = push e q.lists }) qs)

unfoldable pub find_non_empty_pending : ClientMap → Option ℤ
find_non_empty_pending [] = none
find_non_empty_pending ((j, q) ∷ qs) =
    if is_empty q.lists.pending then find_non_empty_pending qs else some j

-- The command, the client and the ticket of its completion function, and the map.
pub record Dequeued : Type 0 where
  pub client : ℤ
  pub command : Command
  pub ticket : ℕ
  pub table : ClientMap

take_from : ℤ → ClientMap → Option Started → Option Dequeued
take_from sock qs none = none
take_from sock qs (some d) = some (record {
  client = sock;
  command = d.command;
  ticket = d.ticket;
  table = put sock (record (get sock qs) { lists = d.container }) qs;
})

unfoldable pub dequeue_any : ClientMap → Option Dequeued
unfolding take_from
dequeue_any qs = elim (find_non_empty_pending qs) [
  | none ↦ none
  | some sock ↦ take_from sock qs (start (get sock qs).lists)
]

unfoldable pub set_completion : ℤ → ℕ → ℤ → ClientMap → Reply × ClientMap
set_completion sock ticket status qs =
    let q = get sock qs in
    let (reply, q') = send_wait_reply (record q { lists = finish ticket status q.lists }) in
    (reply, put sock q' qs)

-- What wait_completion of a client sends; it returns the reply.
unfoldable pub wait_request : ℤ → Bool → Option Command
wait_request id reset_status =
    Command.make id Opcode.status (if reset_status then pos 1 else pos 0) []

-- check_completion is not implemented.
abbrev pub check_completion : Bool
check_completion = false

-- The slot that handle_connections gives to a new connection: the first that is free, or else the
-- one behind the last. `none` is the FATAL exit.
unfoldable pub first_free : List ℤ → ℕ
first_free [] = 0
first_free (fd ∷ fds) = let rest = first_free fds in if fd ==ℤ negsuc 0 then 0 else suc rest

unfoldable pub slot : List ℤ → Option ℕ
unfolding first_free
slot fds = if ltb max_clients (first_free fds) then none else some (first_free fds)
