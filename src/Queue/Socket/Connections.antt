-- ===== src/Queue/Socket/Connections.antt =====
-- handle_connections of src/common/socket_queue.hpp, the loop over the sockets: each round goes
-- through what poll reports for the connections and then takes a new one. `none` is the FATAL exit.
pub mod Slots
pub mod Rounds
use veloc.Base.{ℕ, suc, zero, Option, none, some, List, [], ◌∷◌}
use veloc.Base.Int.{ℤ, negsuc}
use veloc.Command.{Command}
use veloc.Queue.Socket.{ClientMap, Reply, enqueue, slot}

-- What a round finds at a connection: no POLLIN, or a read that gives a command, or one that does
-- not.
pub data Revent : Type 0 where
  quiet : Revent
  sent : Command → Revent
  hung_up : Revent

-- The elements fds[0], ..., fds[fds_size - 1], the listening socket first, and client_map.
pub record Loop : Type 0 where
  pub fds : List ℤ
  pub table : ClientMap

pub record Served : Type 0 where
  pub loop : Loop
  pub replies : List Reply

-- One connection: its element of fds, and what is done with its command.
unfoldable pub receive : Revent → ℤ → ClientMap → ℤ × Reply × ClientMap
receive quiet fd qs = (fd, none, qs)
receive (sent c) fd qs = (let (reply, qs') = enqueue c fd qs in (fd, reply, qs'))
receive hung_up fd qs = (negsuc 0, none, qs)

-- The loop over the connections; those behind the end of the list of events are quiet.
unfoldable pub serve : List ℤ → List Revent → ClientMap → Served
serve [] events qs = record { loop = record { fds = []; table = qs }; replies = [] }
serve (fd ∷ fds) [] qs = record { loop = record { fds = fd ∷ fds; table = qs }; replies = [] }
serve (fd ∷ fds) (event ∷ events) qs =
    let (fd', reply, qs') = receive event fd qs in
    let rest = serve fds events qs' in
    record {
      loop = record { fds = fd' ∷ rest.loop.fds; table = rest.loop.table };
      replies = reply ∷ rest.replies;
    }

-- fds[i].fd = client, where i is fds_size at most.
unfoldable pub store : ℕ → ℤ → List ℤ → List ℤ
store i client [] = client ∷ []
store zero client (fd ∷ fds) = client ∷ fds
store (suc i) client (fd ∷ fds) = fd ∷ store i client fds

unfoldable pub accept : ℤ → List ℤ → Option (List ℤ)
accept client fds = elim (slot fds) [ none ↦ none | some i ↦ some (store i client fds) ]

unfoldable pub serve_all : List ℤ → List Revent → ClientMap → Served
serve_all [] events qs = serve [] events qs
serve_all (listener ∷ fds) events qs =
    let s = serve fds events qs in record s { loop = record s.loop { fds = listener ∷ s.loop.fds } }

-- After the commands of the connections, the one that waits to be accepted, if there is one.
unfoldable pub welcome : Option ℤ → Served → Option Served
welcome none s = some s
welcome (some client) s = elim (accept client s.loop.fds) [
  | none ↦ none
  | some fds ↦ some (record s { loop = record s.loop { fds = fds } })
]

unfoldable pub round : List Revent → Option ℤ → Loop → Option Served
round events incoming l = welcome incoming (serve_all l.fds events l.table)
