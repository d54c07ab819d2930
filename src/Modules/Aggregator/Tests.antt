-- ===== src/Modules/Aggregator/Tests.antt =====
-- Two clients at the barrier.
use veloc.Base.{ℕ, ◌+◌, ◌≡◌, refl, some, List, [], ◌∷◌, ◌++◌, arith, length}
use veloc.Base.Int.{ℤ, pos}
use veloc.Base.Bytes.{codes}
use veloc.Command.{Command, Opcode}
use veloc.Queue.{success}
use veloc.Modules.Aggregator.{State, empty_round, resume}
use veloc.Modules.Aggregator.Laws.{checkpoints, waiting, barrier}

abbrev wave : ℤ → Command
wave id = record {
  unique_id = id;
  command = Opcode.checkpoint;
  version = pos 7;
  offset = 0;
  name = codes "wave";
  original = [];
}

-- A module that counts what it is given.
abbrev count : List Command → ℕ → ℤ × ℕ
count cs n = (success, n + length cs)

abbrev count_one : Command → ℕ → ℤ × ℕ
count_one c n = (success, n)

abbrev two_clients : State ℕ
two_clients = record {
  client_set = (pos 0, tt) ∷ (pos 1, tt) ∷ [];
  checkpoint = empty_round;
  restart = empty_round;
  inner = 0;
}

barrier_example :
    (checkpoints count count_one 2 (wave (pos 0) ∷ wave (pos 1) ∷ []) two_clients ≡ (
      waiting (wave (pos 0) ∷ []) ++ some success ∷ [],
      record two_clients { checkpoint = record { cmds = []; res = success }; inner = 2 },
    ))
    × (resume
          (checkpoints count count_one 2
            (wave (pos 0) ∷ wave (pos 1) ∷ [])
            two_clients).1.checkpoint
        ≡ some success)
barrier_example =
    barrier count count_one 2 (wave (pos 0) ∷ []) (wave (pos 1)) two_clients (refl, (refl, tt))
      (omega arith) refl refl
