-- ===== src/Queue/Socket/Connections/Slots.antt =====
-- How many elements of its array the loop over the sockets uses.
use veloc.Base.{ℕ, suc, ◌≤◌, ◌≡◌, Bool, false, Option, some, List, [], ◌∷◌, if◌then◌else◌}
use veloc.Base.Int.{ℤ, negsuc, ◌==ℤ◌}
use veloc.Queue.Socket.Connections.{Revent, Loop, Served, round}

abbrev pub is_free : ℤ → Bool
is_free fd = fd ==ℤ negsuc 0

-- The sockets that are open, the listening one among them.
unfoldable pub in_use : List ℤ → ℕ
in_use [] = 0
in_use (fd ∷ fds) = if is_free fd then in_use fds else suc (in_use fds)

-- The loop as long as no more than `most` sockets are open at the end of a round. accept gives a
-- descriptor, which is not -1.
pub data Reachable (most : ℕ) : Loop → Type 0 where
  begin : (listener : ℤ) → 1 ≤ most → Reachable most (record { fds = listener ∷ []; table = [] })
  step :
      {l : Loop} (events : List Revent) (incoming : Option ℤ) (s : Served)
      → Reachable most l
      → round events incoming l ≡ some s
      → ((client : ℤ) → incoming ≡ some client → is_free client ≡ false)
      → in_use s.loop.fds ≤ most
      → Reachable most s.loop
