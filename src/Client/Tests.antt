-- ===== src/Client/Tests.antt =====
-- A client with two regions that writes a checkpoint and reads it back elsewhere, and the theorems at
-- that run.
use veloc.Base.{ℕ, ◌+◌, ◌≡◌, refl, Bool, true, false, [], ◌∷◌, if◌then◌else◌}
use veloc.Base.Int.{ℤ, pos, negsuc}
use veloc.Base.Bytes.{bytes_eq, codes}
use veloc.Command.{Command, Opcode, c_str}
use veloc.Command
use veloc.Command.Name.{validate_name}
use veloc.FileSystem.Disk.{Files, disk}
use veloc.Client.Memory.{Memory}
use veloc.Client.State.{
  raw, Regions, Config, Client, Backend, single, returns, get_current_ckpt_regions, mem_protect,
  default_mem_group,
}
use veloc.Client.Checkpoint.{
  Select, Ids, selected, checkpoint_mem, checkpoint_begin, begin_with, write_selected,
  write_checkpoint, write_data, region_bytes,
}
use veloc.Client.Groups.{default_group_frozen}
use veloc.Client.Request.{IsOwnRequest}
use veloc.Client.Order.{begins, fresh, call, Reachable-IsValid}

abbrev config : Config
config = record {
  mode = single;
  is_sync = true;
  scratch = codes "/s";
  meta = codes "/m";
  rank = pos 3;
}

abbrev wave : Command
wave = record {
  unique_id = pos 3;
  command = Opcode.checkpoint;
  version = pos 1;
  offset = 0;
  name = codes "wave";
  original = [];
}

abbrev two_regions : Regions
two_regions = (pos 1, raw 100 2) ∷ (pos 2, raw 200 1) ∷ []

abbrev elsewhere : Regions
elsewhere = (pos 1, raw 301 2) ∷ (pos 2, raw 302 1) ∷ []

-- A client whose default group has the regions.
abbrev with_regions : Bool → Command → Regions → Client disk
with_regions in_progress cmd rs = record {
  mem_regions = λ name. if bytes_eq name default_mem_group then rs else [];
  observers = [];
  current_ckpt = cmd;
  checkpoint_in_progress = in_progress;
  region_info = [];
  header_size = 0;
}

abbrev old_client : Client disk
old_client = with_regions true wave two_regions

abbrev new_client : Client disk
new_client = with_regions false (record wave { command = Opcode.restart }) elsewhere

abbrev memory : Memory
memory a = a + 7

-- Region 1 is read to 301 and region 2 to 303.
abbrev places : ℤ → ℕ
places (pos n) = 300 + n
places (negsuc n) = 0

saved :
    (c : Client disk) × (fs : Files) × (checkpoint_mem config Select.all [] memory old_client []
      ≡ returns (true, c, fs))
unfolding checkpoint_mem get_current_ckpt_regions selected bytes_eq write_selected write_data
    region_bytes write_checkpoint
saved = (_, _, refl)

-- Only region 1 is wanted.
abbrev only_first : Ids
only_first = (pos 1, tt) ∷ []

default_group_frozen_example :
    (get_current_ckpt_regions (mem_protect (pos 1) 900 5 8 default_mem_group saved.0).1).0
    ≡ two_regions
unfolding bytes_eq
default_group_frozen_example =
    default_group_frozen config Select.all [] memory old_client saved.0 true [] saved.1 (pos 1) 900
      5 8 refl refl (λ e. cc) refl saved.2

backend : Backend disk
backend = record {
  enqueue = λ c fs. fs;
  wait_completion = λ fs. (pos 0, fs);
  check_completion = λ fs. true;
}

begun :
    (c : Client disk) × (checkpoint_begin config (codes "wave") (pos 1) new_client
      ≡ returns (true, c))
unfolding checkpoint_begin validate_name Command.make begin_with c_str
begun = (_, refl)

Reachable-IsValid_example : IsOwnRequest config begun.0.current_ckpt
unfolding begun
Reachable-IsValid_example =
    Reachable-IsValid backend config begun.0
      (call (fresh {c = new_client} refl) (begins (codes "wave") (pos 1) true begun.1)) refl
