-- ===== src/Modules/Erasure.antt =====
-- ec_module_t of src/modules/ec_module.cpp: erasure coding over the nodes. The library that does it
-- and MPI are not part of the repository: their calls are a record over the state of the disk.
pub mod Laws
mod Tests
use veloc.Base.{
  ℕ, ◌+◌, Bool, true, false, ◌&&◌, ◌||◌, Option, none, some, List, [], ◌∷◌, ◌++◌, ltb,
  if◌then◌else◌,
}
use veloc.Base.Int.{ℤ, pos, negsuc, ltb_ℤ, ◌==ℤ◌, pos_part}
use veloc.Base.Bytes.{Bytes, codes}
use veloc.Command.{Command, Opcode, filename}
use veloc.Command.Decimal.{to_string}
use veloc.Queue.{success, failure, ignored, is_empty}
use veloc.FileSystem.{FileSystem}

pub record Er (F : FileSystem) : Type 0 where
  -- ER_Init == ER_SUCCESS, and ER_Create_Scheme over so many hosts
  pub init : Bytes → F.State → Bool × F.State
  pub create_scheme : ℕ → F.State → ℤ × F.State
  -- ER_Create with ER_DIRECTION_ENCODE and a scheme, and with ER_DIRECTION_REBUILD
  pub encode : Bytes → ℤ → F.State → ℤ × F.State
  pub rebuild : Bytes → F.State → ℤ × F.State
  -- ER_Add, ER_Dispatch, ER_Wait == ER_SUCCESS and ER_Free of a set
  pub add : ℤ → Bytes → F.State → F.State
  pub dispatch : ℤ → F.State → F.State
  pub wait : ℤ → F.State → Bool × F.State
  pub free : ℤ → F.State → F.State

-- The module: interval and scheme_id, which is not set if the interval is negative.
pub record Module : Type 0 where
  pub interval : ℤ
  pub scheme_id : ℤ

abbrev or_zero : Option ℤ → ℤ
or_zero none = pos 0
or_zero (some i) = i

module _ {F : FileSystem} (er : Er F) where
  with_scheme : ℤ → ℤ × F.State → Option (Module × F.State)
  with_scheme interval (scheme_id, fs) =
      if ltb_ℤ scheme_id (pos 0)
      then none
      else some (record { interval = interval; scheme_id = scheme_id }, fs)

  -- The constructor, with ec_interval of the configuration; `none` is the FATAL exit.
  unfoldable pub make : Bytes → Option ℤ → ℕ → F.State → Option (Module × F.State)
  unfolding with_scheme
  make cfg_file ec_interval ranks fs =
      let interval = if ltb ranks 2 then negsuc 0 else or_zero ec_interval in
      if ltb_ℤ interval (pos 0)
      then some (record { interval = interval; scheme_id = negsuc 0 }, fs)
      else (let (done, fs') = er.init cfg_file fs in
          if done then with_scheme interval (er.create_scheme ranks fs') else none)

  -- process_command for the clock's `now` and last_timestamp.
  unfoldable pub process_command : Module → ℕ → Command → ℕ → ℤ × ℕ
  process_command m now c last_timestamp =
      if ltb_ℤ m.interval (pos 0) then (ignored, last_timestamp) else elim c.command [
        | Opcode.init ↦ (success, now + pos_part m.interval)
        | _ ↦ (ignored, last_timestamp)
      ]

  module _ (m : Module) (allreduce_land : Bool → Bool) (scratch : Bytes) where
    set_name : Command → Bytes
    set_name c = scratch ++ (codes "/" ++ (c.name ++ (codes "-ec-" ++ to_string c.version)))

    add_all : ℤ → List Command → F.State → F.State
    add_all set_id [] fs = fs
    add_all set_id (c ∷ cs) fs = add_all set_id cs (er.add set_id (filename c scratch) fs)

    -- ER_Dispatch, ER_Wait and ER_Free
    carry_out : ℤ → ℤ → F.State → ℤ × F.State
    carry_out otherwise set_id fs =
        let (done, fs') = er.wait set_id (er.dispatch set_id fs) in
        (if done then success else otherwise, er.free set_id fs')

    encode_set : List Command → ℤ × F.State → ℤ × F.State
    unfolding add_all carry_out
    encode_set cmds (set_id, fs) =
        if set_id ==ℤ negsuc 0
        then (failure, fs)
        else carry_out failure set_id (add_all set_id cmds fs)

    rebuild_set : ℤ × F.State → ℤ × F.State
    unfolding carry_out
    rebuild_set (set_id, fs) =
        if set_id ==ℤ negsuc 0 then (failure, fs) else carry_out ignored set_id fs

    all_readable : List Command → F.State → Bool
    all_readable [] fs = true
    all_readable (c ∷ cs) fs = F.can_read fs (filename c scratch) && all_readable cs fs

    -- CHECKPOINT: whether it is time on every node, the status, last_timestamp and the disk.
    protect : ℕ → Command → List Command → ℕ → F.State → ℤ × ℕ × F.State
    unfolding encode_set set_name
    protect now c cmds last_timestamp fs =
        let encoded = encode_set cmds (er.encode (set_name c) m.scheme_id fs) in
        if ltb_ℤ (pos 0) m.interval
        then (if allreduce_land (if ltb now last_timestamp then false else true)
            then (encoded.0, now + pos_part m.interval, encoded.1)
            else (success, last_timestamp, fs))
        else (encoded.0, last_timestamp, encoded.1)

    -- RESTART
    recover : Command → List Command → ℕ → F.State → ℤ × ℕ × F.State
    unfolding rebuild_set set_name all_readable
    recover c cmds last_timestamp fs =
        let rebuilt = rebuild_set (er.rebuild (set_name c) fs) in
        if allreduce_land (all_readable cmds fs)
        then (success, last_timestamp, fs)
        else (rebuilt.0, last_timestamp, rebuilt.1)

    by_opcode : Opcode → ℕ → Command → List Command → ℕ → F.State → ℤ × ℕ × F.State
    unfolding protect recover
    by_opcode Opcode.checkpoint now c cmds last_timestamp fs = protect now c cmds last_timestamp fs
    by_opcode Opcode.restart now c cmds last_timestamp fs = recover c cmds last_timestamp fs
    by_opcode _ now c cmds last_timestamp fs = (ignored, last_timestamp, fs)

    unfoldable pub process_commands : ℕ → List Command → ℕ → F.State → ℤ × ℕ × F.State
    unfolding by_opcode
    process_commands now [] last_timestamp fs = (ignored, last_timestamp, fs)
    process_commands now (c ∷ cs) last_timestamp fs =
        if ltb_ℤ m.interval (pos 0)
        then (ignored, last_timestamp, fs)
        else by_opcode c.command now c (c ∷ cs) last_timestamp fs
