-- ===== src/Queue/Socket/Tests.antt =====
-- A client that sends a request over the socket and waits for it, and rounds of the loop over the
-- sockets with one and two of them.
use veloc.Base.{◌≡◌, refl, List, [], ◌∷◌, ◌++◌, none}
use veloc.Base.Int.{ℤ, pos, negsuc}
use veloc.Base.Bytes.{codes}
use veloc.Command.{Command, Opcode}
use veloc.Queue.Socket.{ClientMap, get, enqueue}
use veloc.Queue.Socket.Connections.{
  Served, sent, hung_up, round, serve, serve_all, receive, welcome,
}
use veloc.Queue.Socket.Connections.Slots.{Reachable as Looped, begin, step}
use veloc.Queue.Socket.Connections.Rounds.{requests, round_delivers}
use veloc.Queue.Socket.Wakeup.{Reachable, begin, step}

abbrev request : Command
request = record {
  unique_id = pos 3;
  command = Opcode.checkpoint;
  version = pos 1;
  offset = 0;
  name = codes "wave";
  original = [];
}

abbrev wait : Command
wait = record request { command = Opcode.status }

waiting : ClientMap
unfolding enqueue
waiting = (enqueue wait (pos 9) (enqueue request (pos 9) []).1).1

abbrev connected : List ℤ
connected = pos 4 ∷ pos 9 ∷ []

-- The listening socket alone takes its first client.
first_round : Served
first_round = record { loop = record { fds = connected; table = [] }; replies = [] }

after_request : Served
unfolding enqueue
after_request = record {
  loop = record { fds = pos 4 ∷ pos 9 ∷ negsuc 0 ∷ []; table = (enqueue request (pos 9) []).1 };
  replies = none ∷ none ∷ [];
}

round_delivers_example :
    (get (pos 9) after_request.loop.table).lists.pending
    ≡ (get (pos 9) []).lists.pending
      ++ requests (pos 9) (pos 9 ∷ pos 10 ∷ []) (sent request ∷ hung_up ∷ [])
unfolding after_request round serve_all serve receive welcome
round_delivers_example =
    round_delivers (pos 9) (pos 4) (pos 9 ∷ pos 10 ∷ []) (sent request ∷ hung_up ∷ []) none []
      after_request refl
