-- ===== src/Storage/Posix.antt =====
-- posix_module_t of src/storage/posix_module.cpp: a directory as the persistent storage.
pub mod Laws
mod Tests
use veloc.Base.{ℕ, ◌-◌, ◌^◌, Bool, true, false, List, [], ◌∷◌, if◌then◌else◌}
use veloc.Base.Int.{ℤ, ◌==ℤ◌}
use veloc.Base.IntMap.{insert}
use veloc.Base.Bytes.{Bytes}
use veloc.Command.{Command, filename}
use veloc.Queue.{is_empty}
use veloc.FileSystem.{FileSystem}
use veloc.FileUtil.{Walk, parse_dir, posix_transfer_file}
use veloc.Storage.{Storage, VersionSet}

-- numeric_limits<size_t>::max()
abbrev pub size_max : ℕ
size_max = 2 ^ 64 - 1

module _ (F : FileSystem) (scratch persistent : Bytes) where
  get_versions : F.State → Command → VersionSet → Walk VersionSet
  get_versions fs cmd result =
      parse_dir F fs persistent cmd.name
        (λ _ id v r. if id ==ℤ cmd.unique_id then insert v tt r else r) result

  -- The file-based API: the copy goes to the original path, and a link to it to the storage.
  link_original : Command → Bool × F.State → Bool × F.State
  link_original cmd (false, fs) = (false, fs)
  link_original cmd (true, fs) =
      F.symlink (F.unlink fs (filename cmd persistent)).1 cmd.original (filename cmd persistent)

  unfoldable pub flush : F.State → Command → Bool × F.State
  unfolding link_original
  flush fs cmd =
      if is_empty cmd.original
      then posix_transfer_file F fs (filename cmd scratch) (filename cmd persistent) 0 0 size_max
      else link_original cmd
          (posix_transfer_file F fs (filename cmd scratch) cmd.original 0 0 size_max)

  unfoldable pub restore : F.State → Command → Bool × F.State
  restore fs cmd =
      posix_transfer_file F fs (filename cmd persistent) (filename cmd scratch) 0 0 size_max

  unfoldable pub posix : Storage F
  unfolding get_versions flush restore
  posix = record {
    get_versions = get_versions;
    remove = λ fs cmd. F.unlink fs (filename cmd persistent);
    flush = flush;
    restore = restore;
    exists = λ fs cmd. F.can_read fs (filename cmd persistent);
  }
