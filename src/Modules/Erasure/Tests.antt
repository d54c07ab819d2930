-- ===== src/Modules/Erasure/Tests.antt =====
-- A single host, and a library that fails, over a small disk.
use veloc.Base.{◌≡◌, refl, true, false, Bool, [], ◌∷◌, arith}
use veloc.Base.Int.{pos, ◌==ℤ◌}
use veloc.Base.Bytes.{codes}
use veloc.Command.{Command, Opcode}
use veloc.Queue.{success}
use veloc.FileSystem.Disk.{disk}
use veloc.Modules.Erasure.{Er, Module, process_commands}
use veloc.Modules.Erasure.Laws.{protection_held_back}

abbrev wave : Command
wave = record {
  unique_id = pos 0;
  command = Opcode.checkpoint;
  version = pos 7;
  offset = 0;
  name = codes "wave";
  original = [];
}

-- A library whose encoding fails.
abbrev broken : Er disk
broken = record {
  init = λ cfg fs. (true, fs);
  create_scheme = λ n fs. (pos 1, fs);
  encode = λ name scheme fs. (pos 1, fs);
  rebuild = λ name fs. (pos 1, fs);
  add = λ id file fs. fs;
  dispatch = λ id fs. fs;
  wait = λ id fs. (false, fs);
  free = λ id fs. fs;
}

abbrev alone : Bool → Bool
alone b = b

abbrev hourly : Module
hourly = record { interval = pos 3600; scheme_id = pos 1 }

protection_held_back_example :
    process_commands broken hourly alone
      (codes "/s")
      9
      (wave ∷ [])
      (process_commands broken hourly alone (codes "/s") 5 (wave ∷ []) 0 []).1
      []
    ≡ (success, (process_commands broken hourly alone (codes "/s") 5 (wave ∷ []) 0 []).1, [])
unfolding process_commands ◌==ℤ◌
protection_held_back_example =
    protection_held_back broken hourly alone (codes "/s") 5 9 wave wave [] [] 0 [] [] (omega arith)
      refl refl refl (omega arith) refl
