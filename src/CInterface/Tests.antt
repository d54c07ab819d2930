-- ===== src/CInterface/Tests.antt =====
-- A program that calls the C interface before, and after, the time in which it may.
use veloc.Base.{◌≡◌, refl, true, false, [], ◌+◌}
use veloc.Base.Int.{pos, ◌==ℤ◌}
use veloc.Base.Bytes.{codes}
use veloc.Command.{Command, Opcode}
use veloc.Queue.{success}
use veloc.FileSystem.Disk.{Files, disk}
use veloc.Client.State.{Config, Client, Backend, single, Outcome, returns, undefined}
use veloc.Client.Checkpoint.{checkpoint_wait}
use veloc.CInterface.{World, Handle, alive, deleted, finalize, wait, call, then_return}
use veloc.CInterface.Calls.{Call, inits, run}
use veloc.CInterface.Lifetime.{is_init, finalized}

abbrev config : Config
config = record {
  mode = single;
  is_sync = true;
  scratch = codes "/s";
  meta = codes "/m";
  rank = pos 3;
}

abbrev backend : Backend disk
backend = record {
  enqueue = λ cmd fs. fs;
  wait_completion = λ fs. (success, fs);
  check_completion = λ fs. true;
}

abbrev wave : Command
wave = record {
  unique_id = pos 3;
  command = Opcode.checkpoint;
  version = pos 1;
  offset = 0;
  name = codes "wave";
  original = [];
}

abbrev client : Client disk
client = record {
  mem_regions = λ name. [];
  observers = [];
  current_ckpt = wave;
  checkpoint_in_progress = false;
  region_info = [];
  header_size = 0;
}

abbrev world : Handle disk → World disk
world h = record { handle = h; memory = λ a. a + 7; files = [] }

abbrev construct : Files → Outcome (Client disk × Files)
construct fs = returns (client, fs)

finalized_example :
    (run backend config (inits construct) (world deleted) ≡ returns (success, world deleted))
    × ((k : Call disk) → is_init k ≡ false → run backend config k (world deleted) ≡ undefined)
unfolding run finalize wait call then_return checkpoint_wait ◌==ℤ◌
finalized_example =
    finalized backend config true (world (alive client)) (world deleted) client success construct
      refl refl
