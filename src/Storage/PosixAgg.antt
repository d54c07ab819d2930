-- ===== src/Storage/PosixAgg.antt =====
-- posix_agg_module_t of src/storage/posix_agg_module.cpp: the files of all ranks in one file of the
-- persistent directory, each at an offset that a file of the metadata directory tells.
pub mod Overwrite
pub mod Laws
pub mod Parts
mod Tests
use veloc.Base.{
  ℕ, ◌+◌, ◌-◌, ◌*◌, ◌%◌, ◌^◌, Bool, true, false, not, Option, none, some, List, [], ◌∷◌, ◌==◌, take,
  drop, if◌then◌else◌,
}
use veloc.Base.Int.{ℤ, pos_part, neg_part, ◌==ℤ◌}
use veloc.Base.IntMap.{insert}
use veloc.Base.Bytes.{Bytes}
use veloc.Command.{Command, filename, agg_filename, id_agg}
use veloc.Header.Codec.{le_value}
use veloc.FileSystem.{FileSystem}
use veloc.FileUtil.{Walk, parse_dir, check_dir, posix_transfer_file, overwrite}
use veloc.Storage.{Storage, VersionSet}
use veloc.Storage.Posix.{size_max}

-- numeric_limits<long>::max()
abbrev pub long_max : ℕ
long_max = 2 ^ 63 - 1

-- What num_ranks and offset[2] hold before they are read, which is left open.
pub record Stack : Type 0 where
  pub num_ranks : Bytes
  pub offset : Bytes

-- (cmd.unique_id + 1), and its product with sizeof(long), as 64 bits
abbrev pub rank_after : Command → ℕ
rank_after cmd = (pos_part cmd.unique_id + 1 + 2 ^ 64 - neg_part cmd.unique_id) % 2 ^ 64

module _ (F : FileSystem) (scratch persistent meta : Bytes) where
  -- The constructor, behind that of posix_module_t: false is the FATAL exit.
  unfoldable pub make : F.State → Bool × F.State
  make fs =
      let (found, fs') = check_dir F fs persistent in
      if found then check_dir F fs' meta else (false, fs')

  get_versions : F.State → Command → VersionSet → Walk VersionSet
  get_versions fs cmd result =
      parse_dir F fs persistent cmd.name (λ _ id v r. if id ==ℤ id_agg then insert v tt r else r)
        result

  unfoldable pub flush : F.State → Command → Bool × F.State
  flush fs cmd =
      posix_transfer_file F fs (filename cmd scratch) (agg_filename cmd persistent) 0 cmd.offset
        size_max

  -- The result of unlink is 0 when the file is removed.
  unfoldable pub remove : F.State → Command → Bool × F.State
  remove fs cmd =
      let (removed, fs') = F.unlink fs (agg_filename cmd persistent) in (not removed, fs')

  abbrev part : F.State → Command → ℕ → ℕ → Bool × F.State
  part fs cmd soffset size =
      posix_transfer_file F fs (agg_filename cmd persistent) (filename cmd scratch) soffset 0 size

  -- The last rank: its offset, from which the file is copied to its end.
  unfoldable pub last_part : F.State → Command → Bytes → Option Bytes → Bool × F.State
  last_part fs cmd offset none = (false, fs)
  last_part fs cmd offset (some b) = part fs cmd (le_value (take 8 (overwrite 0 b offset))) long_max

  -- Every other rank: its offset and the next one.
  unfoldable pub inner_part : F.State → Command → Bytes → Option Bytes → Bool × F.State
  inner_part fs cmd offset none = (false, fs)
  inner_part fs cmd offset (some b) =
      let from = le_value (take 8 (overwrite 0 b offset)) in
      let to = le_value (take 8 (drop 8 (overwrite 0 b offset))) in
      part fs cmd from ((to + 2 ^ 64 - from) % 2 ^ 64)

  unfoldable pub with_ranks : F.State → Command → Stack → Option Bytes → Bool × F.State
  unfolding last_part inner_part
  with_ranks fs cmd stack none = (false, fs)
  with_ranks fs cmd stack (some b) =
      let at = rank_after cmd * 8 % 2 ^ 64 in
      if rank_after cmd == le_value (take 8 (overwrite 0 b stack.num_ranks))
      then last_part fs cmd stack.offset (F.pread fs (agg_filename cmd meta) at 8)
      else inner_part fs cmd stack.offset (F.pread fs (agg_filename cmd meta) at 16)

  unfoldable pub restore : Stack → F.State → Command → Bool × F.State
  unfolding with_ranks
  restore stack fs cmd = elim (F.contents fs (agg_filename cmd meta)) [
    | none ↦ (false, fs)
    | some _ ↦ with_ranks fs cmd stack (F.pread fs (agg_filename cmd meta) 0 8)
  ]

  unfoldable pub posix_agg : Stack → Storage F
  unfolding get_versions flush remove restore
  posix_agg stack = record {
    get_versions = get_versions;
    remove = remove;
    flush = flush;
    restore = restore stack;
    exists = λ fs cmd. F.can_read fs (agg_filename cmd persistent);
  }
