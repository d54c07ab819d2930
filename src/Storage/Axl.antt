-- ===== src/Storage/Axl.antt =====
-- axl_module_t of src/storage/axl_module.cpp: a directory as the persistent storage, with copies made
-- by the AXL library, which is not part of the repository: its calls are a record over the disk.
pub mod Laws
mod Tests
use veloc.Base.{ℕ, Bool, true, false, not, ◌||◌, Option, none, some, List, [], ◌∷◌, if◌then◌else◌}
use veloc.Base.Int.{ℤ, pos, ltb_ℤ, ◌==ℤ◌}
use veloc.Base.Bytes.{Bytes, bytes_eq, codes}
use veloc.Command.{Command, filename}
use veloc.Queue.{is_empty}
use veloc.FileSystem.{FileSystem}
use veloc.FileUtil.{check_dir}
use veloc.Storage.{Storage}
use veloc.Storage.Posix.{posix}

pub data Xfer : Type 0 where
  xfer_default xfer_native xfer_sync xfer_async_dw xfer_async_bbapi : Xfer

-- AXL_Init, AXL_Create, which returns an id or a negative number, and AXL_Add, AXL_Dispatch, AXL_Wait
-- and AXL_Free of an id, which return 0 for success.
pub record Axl (F : FileSystem) : Type 0 where
  pub init : F.State → ℤ × F.State
  pub create : Xfer → Bytes → F.State → ℤ × F.State
  pub add : ℤ → Bytes → Bytes → F.State → ℤ × F.State
  pub dispatch : ℤ → F.State → ℤ × F.State
  pub wait : ℤ → F.State → ℤ × F.State
  pub free : ℤ → F.State → ℤ × F.State

-- The map axl_type_strs.
unfoldable pub xfer_of : Bytes → Option Xfer
xfer_of s =
    if bytes_eq s (codes "default")
    then some xfer_default
    else if bytes_eq s (codes "native")
    then some xfer_native
    else if bytes_eq s (codes "AXL_XFER_SYNC")
    then some xfer_sync
    else if bytes_eq s (codes "AXL_XFER_ASYNC_DW")
    then some xfer_async_dw
    else if bytes_eq s (codes "AXL_XFER_ASYNC_BBAPI")
    then some xfer_async_bbapi
    else none

module _ {F : FileSystem} (axl : Axl F) where
  initialized : Xfer → ℤ × F.State → Option (Xfer × F.State)
  initialized t (ret, fs) = if ret ==ℤ pos 0 then some (t, fs) else none

  -- The constructor, with that of posix_module_t; `none` is the FATAL exit.
  unfoldable pub make : Bytes → Bytes → F.State → Option (Xfer × F.State)
  unfolding initialized
  make persistent axl_type_str fs =
      let (found, fs') = check_dir F fs persistent in
      if found
      then elim (xfer_of axl_type_str) [ none ↦ none | some t ↦ initialized t (axl.init fs') ]
      else none

  -- A call that goes on if it returned 0.
  unfoldable pub go_on : ℤ × F.State → (F.State → Bool × F.State) → Bool × F.State
  go_on (result, fs) next = if result ==ℤ pos 0 then next fs else (false, fs)

  unfoldable pub axl_transfer_file : Xfer → Bytes → Bytes → F.State → Bool × F.State
  unfolding go_on
  axl_transfer_file t source dest fs =
      let (id, fs) = axl.create t source fs in
      if ltb_ℤ id (pos 0)
      then (false, fs)
      else go_on (axl.add id source dest fs) λ fs.
        go_on (axl.dispatch id fs)
          λ fs. go_on (axl.wait id fs) λ fs. go_on (axl.free id fs) λ fs. (true, fs)

  module _ (t : Xfer) (scratch persistent : Bytes) where
    linked : Command → Bool × F.State → Bool × F.State
    linked cmd (false, fs) = (false, fs)
    linked cmd (true, fs) =
        F.symlink (F.unlink fs (filename cmd persistent)).1 cmd.original (filename cmd persistent)

    unfoldable pub flush : F.State → Command → Bool × F.State
    unfolding linked
    flush fs cmd =
        if is_empty cmd.original
        then axl_transfer_file t (filename cmd scratch) (filename cmd persistent) fs
        else linked cmd (axl_transfer_file t (filename cmd scratch) cmd.original fs)

    unfoldable pub restore : F.State → Command → Bool × F.State
    restore fs cmd = axl_transfer_file t (filename cmd persistent) (filename cmd scratch) fs

    -- The other operations are those of posix_module_t.
    unfoldable pub storage : Storage F
    storage = record (posix F scratch persistent) { flush = flush; restore = restore }
