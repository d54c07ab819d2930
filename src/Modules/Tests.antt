-- ===== src/Modules/Tests.antt =====
-- The modules over a small disk, and the theorems about them at concrete requests.
use veloc.Base.{ℕ, zero, suc, ap, ◌+◌, ◌≡◌, ◌↔◌, refl, true, false, [], ◌∷◌, length, arith}
use veloc.Base.Int.{ℤ, pos, ◌==ℤ◌}
use veloc.Base.Bytes.{Bytes, bytes_eq, codes}
use veloc.Base.IntMap.{find}
use veloc.Command.{Command, Opcode, filename, meta_filename}
use veloc.Command.Decimal.{to_string}
use veloc.Queue.{success, ignored}
use veloc.FileSystem.Disk.{Files, disk, disk-WriteLaws}
use veloc.FileUtil.{write_file, returned}
use veloc.Storage.{Storage}
use veloc.Modules.Manager.{
  Method, notify_command, run_all, statuses, greatest, notify_command-succeeds,
}
use veloc.Modules.Chksum
use veloc.Modules.Chksum.{chksum_file}
use veloc.Modules.Chksum.Laws.{restart_verdict}
use veloc.Modules.Transfer
use veloc.Modules.Transfer.{timestamp, Timestamps}
use veloc.Modules.Transfer.Laws as TransferLaws
use veloc.Modules.Watchdog
use veloc.Modules.Watchdog.{timed_out, ClientMap}
use veloc.Modules.Watchdog.Laws as WatchdogLaws

abbrev wave : Opcode → Command
wave o = record {
  unique_id = pos 12;
  command = o;
  version = pos 7;
  offset = 0;
  name = codes "wave";
  original = [];
}

-- Modules that count their calls.
abbrev says : ℤ → Method ℕ
says r c n = (r, n + 1)

notify_command-succeeds_example :
    notify_command (says ignored ∷ says success ∷ []) (wave Opcode.init) 0 ≡ (
      greatest ignored (statuses (says ignored ∷ says success ∷ []) (wave Opcode.init) 0),
      run_all (says ignored ∷ says success ∷ []) (wave Opcode.init) 0,
    )
notify_command-succeeds_example =
    notify_command-succeeds (says ignored ∷ says success ∷ []) (wave Opcode.init) 0
      (λ e. cc, (λ e. cc, tt))

-- A digest of 32 bytes.
abbrev pad : ℕ → Bytes → Bytes
pad zero b = []
pad (suc n) [] = 0 ∷ pad n []
pad (suc n) (x ∷ b) = x ∷ pad n b

length-pad : (n : ℕ) (b : Bytes) → length (pad n b) ≡ n
length-pad zero b = refl
length-pad (suc n) [] = ap suc (length-pad n [])
length-pad (suc n) (x ∷ b) = ap suc (length-pad n b)

abbrev chksum_config : Chksum.Config
chksum_config = record { active = true; meta = codes "/m"; scratch = codes "/s" }

abbrev local_file : Bytes
local_file = codes "/s/wave-12-7.dat"

abbrev before : Files
before = (local_file, codes "data") ∷ []

abbrev process : Opcode → Files → ℤ × Files
process o = Chksum.process_command disk (pad 32) chksum_config (wave o)

restart_verdict_example :
    ((process Opcode.restart ((local_file, codes "date") ∷ (process Opcode.checkpoint before).1)).0
      ≡ success)
    ↔ (chksum_file disk
          (pad 32)
          ((local_file, codes "date") ∷ (process Opcode.checkpoint before).1)
          local_file
        ≡ chksum_file disk (pad 32) before local_file)
unfolding filename meta_filename bytes_eq Chksum.process_command write_file to_string
restart_verdict_example =
    restart_verdict disk disk-WriteLaws (pad 32) (length-pad 32) chksum_config refl
      (wave Opcode.checkpoint) (wave Opcode.restart) refl refl refl before
      ((local_file, codes "date") ∷ (process Opcode.checkpoint before).1) refl refl

abbrev no_storage : Storage disk
no_storage = record {
  get_versions = λ s cmd result. returned true result;
  remove = λ s cmd. (true, s);
  flush = λ s cmd. (false, s);
  restore = λ s cmd. (true, (local_file, codes "data") ∷ s);
  exists = λ s cmd. true;
}

held_back_example :
    Transfer.process_command
      (Transfer.active no_storage (pos 10))
      (codes "/s")
      109
      (wave Opcode.checkpoint)
      (TransferLaws.run no_storage
        (pos 10)
        (codes "/s")
        ((100, wave Opcode.checkpoint) ∷ [])
        []
        before).0
      (TransferLaws.run no_storage
        (pos 10)
        (codes "/s")
        ((100, wave Opcode.checkpoint) ∷ [])
        []
        before).1
    ≡ (
      success,
      (TransferLaws.run no_storage
          (pos 10)
          (codes "/s")
          ((100, wave Opcode.checkpoint) ∷ [])
          []
          before).0,
      (TransferLaws.run no_storage
          (pos 10)
          (codes "/s")
          ((100, wave Opcode.checkpoint) ∷ [])
          []
          before).1,
    )
unfolding timestamp find
held_back_example =
    TransferLaws.held_back no_storage (pos 10) (codes "/s") (omega arith) 100 109
      (wave Opcode.checkpoint) (wave Opcode.checkpoint) [] [] before refl refl refl (omega arith) tt
      (omega arith)

-- A storage whose copies break off with the first half of the file.
abbrev breaks_off : Storage disk
breaks_off = record no_storage {
  restore = λ fs c. (false, (codes "/s/wave-12-7.dat", codes "da") ∷ fs);
  exists = λ fs c. true;
}

not_reported_example :
    WatchdogLaws.reports (pos 12) (
      timed_out 60
        (WatchdogLaws.run (pos 30) ((40, wave Opcode.init) ∷ (50, wave Opcode.checkpoint) ∷ []) []))
    ≡ false
unfolding Watchdog.process_command ◌==ℤ◌
not_reported_example =
    WatchdogLaws.not_reported (pos 30) (omega arith) 40 60 (wave Opcode.init)
      ((50, wave Opcode.checkpoint) ∷ []) [] tt refl (omega arith, tt) (omega arith)
