-- ===== src/Modules/Transfer.antt =====
-- transfer_module_t of src/modules/transfer_module.cpp: copies between the scratch directory and
-- the persistent storage. Times are seconds of the system clock.
pub mod Laws
use veloc.Base.{ℕ, ◌+◌, Bool, true, false, Option, none, some, List, [], ◌∷◌, ltb, if◌then◌else◌}
use veloc.Base.Int.{ℤ, pos, negsuc, ltb_ℤ, pos_part}
use veloc.Base.Bytes.{Bytes}
use veloc.Base.IntMap.{IntMap, find, assign}
use veloc.Command.{Command, Opcode, filename}
use veloc.Queue.{success, failure, ignored}
use veloc.FileSystem.{FileSystem}
use veloc.Storage.{Storage}

-- The module, as its constructor makes it: without a storage its interval is -1.
pub data Module (F : FileSystem) : Type 0 where
  inactive : Module F
  active : Storage F → ℤ → Module F

unfoldable pub make : {F : FileSystem} → Option (Storage F) → Option ℤ → Module F
make none interval = inactive
make (some s) none = active s (pos 0)
make (some s) (some interval) = active s interval

-- last_timestamp
abbrev pub Timestamps : Type 0
Timestamps = IntMap ℕ

-- last_timestamp[id], which is the clock's epoch for a client that has none
abbrev or_epoch : Option ℕ → ℕ
or_epoch none = 0
or_epoch (some t) = t

unfoldable pub timestamp : ℤ → Timestamps → ℕ
timestamp id ts = or_epoch (find id ts)

abbrev pub Outcome : FileSystem → Type 0
Outcome F = ℤ × Timestamps × F.State

module _ {F : FileSystem} (s : Storage F) (interval : ℤ) (scratch : Bytes) where
  -- success ? VELOC_SUCCESS : otherwise
  reply : ℤ → Timestamps → Bool × F.State → Outcome F
  reply otherwise ts (done, fs) = (if done then success else otherwise, ts, fs)

  process_checkpoint : ℕ → Command → Timestamps → F.State → Outcome F
  unfolding reply timestamp
  process_checkpoint now c ts fs =
      if ltb_ℤ (pos 0) interval
      then (if ltb now (timestamp c.unique_id ts)
          then (success, ts, fs)
          else reply failure (assign c.unique_id (now + pos_part interval) ts) (s.flush fs c))
      else reply failure ts (s.flush fs c)

  process_restart : Command → Timestamps → F.State → Outcome F
  unfolding reply
  process_restart c ts fs =
      if F.can_read fs (filename c scratch)
      then (success, ts, fs)
      else if s.exists fs c
      then reply ignored ts (s.restore fs c)
      else (ignored, ts, fs)

  dispatch : Opcode → ℕ → Command → Timestamps → F.State → Outcome F
  unfolding process_checkpoint process_restart
  dispatch Opcode.init now c ts fs = (success, assign c.unique_id (now + pos_part interval) ts, fs)
  dispatch Opcode.checkpoint now c ts fs = process_checkpoint now c ts fs
  dispatch Opcode.restart now c ts fs = process_restart c ts fs
  dispatch _ now c ts fs = (ignored, ts, fs)

unfoldable pub process_command :
    {F : FileSystem} → Module F → Bytes → ℕ → Command → Timestamps → F.State → Outcome F
unfolding dispatch
process_command inactive scratch now c ts fs = (ignored, ts, fs)
process_command (active s interval) scratch now c ts fs =
    if ltb_ℤ interval (pos 0)
    then (ignored, ts, fs)
    else dispatch s interval scratch c.command now c ts fs
