-- ===== src/Storage/Posix/Tests.antt =====
-- A checkpoint that is flushed and restored on a small disk, and one that is flushed over a longer
-- file.
use veloc.Base.{◌≡◌, refl, some, [], ◌∷◌, ◌++◌, arith}
use veloc.Base.Int.{pos}
use veloc.Base.Bytes.{Bytes, codes, bytes_eq}
use veloc.Base.IntMap.{insert}
use veloc.Command.{Command, Opcode, filename}
use veloc.Command.Decimal.{to_string}
use veloc.FileSystem.Disk.{Files, disk, disk-CopyLaws}
use veloc.FileUtil.{posix_transfer_file, overwrite}
use veloc.Header.{read_header, read, read_regions}
use veloc.Header.Codec.{le_value, int_value}
use veloc.Header.Prefix.{IsAccepted}
use veloc.Storage.Posix.{flush, restore}
use veloc.Storage.Posix.Laws.{restore-flush, stale_tail_refused}

abbrev wave : Command
wave = record {
  unique_id = pos 12;
  command = Opcode.checkpoint;
  version = pos 7;
  offset = 0;
  name = codes "wave";
  original = [];
}

abbrev local_path : Bytes
local_path = codes "/s/wave-12-7.dat"

abbrev stored_path : Bytes
stored_path = codes "/p/wave-12-7.dat"

abbrev before : Files
before = (local_path, codes "data") ∷ []

-- Another node, with the same persistent directory.
abbrev elsewhere : Files
elsewhere = (stored_path, codes "data") ∷ []

restore-flush_example :
    disk.contents
      (restore disk (codes "/s") (codes "/p") elsewhere wave).1
      (filename wave (codes "/s"))
    ≡ some (codes "data")
unfolding flush filename to_string bytes_eq posix_transfer_file restore overwrite
restore-flush_example =
    restore-flush disk-CopyLaws (codes "/s") (codes "/p") before elsewhere wave (codes "data") refl
      (omega arith) refl refl refl refl refl refl

abbrev small_checkpoint : Bytes
small_checkpoint =
    1 ∷ 0 ∷ 0 ∷ 0 ∷ 0 ∷ 0 ∷ 0 ∷ 0 ∷ 7 ∷ 0 ∷ 0 ∷ 0 ∷ 1 ∷ 0 ∷ 0 ∷ 0 ∷ 0 ∷ 0 ∷ 0 ∷ 0 ∷ 9 ∷ []

abbrev large_file : Bytes
large_file = small_checkpoint ++ 5 ∷ 5 ∷ []

small_checkpoint-IsAccepted : IsAccepted small_checkpoint
unfolding read_header le_value int_value read insert read_regions
small_checkpoint-IsAccepted = λ e. cc

abbrev overwritten : Files
overwritten = (local_path, small_checkpoint) ∷ (stored_path, large_file) ∷ []

stale_tail_refused_example :
    (read_header (
      disk.contents
        (flush disk (codes "/s") (codes "/p") overwritten wave).1
        (filename wave (codes "/p")))).size
    ≡ 0
unfolding flush filename to_string bytes_eq posix_transfer_file
stale_tail_refused_example =
    stale_tail_refused disk-CopyLaws (codes "/s") (codes "/p") overwritten wave small_checkpoint
      large_file refl (omega arith) refl refl (omega arith) small_checkpoint-IsAccepted refl
