-- ===== src/Storage/PosixAgg/Tests.antt =====
-- Two ranks that share a file: the first one flushes, the second one writes behind it, and the first
-- one restores its part on another node.
use veloc.Base.{◌≡◌, refl, some, [], ◌∷◌, arith, inl}
use veloc.Base.Int.{pos}
use veloc.Base.Bytes.{Bytes, codes, bytes_eq}
use veloc.Command.{Command, Opcode, filename, agg_filename}
use veloc.Command.Decimal.{to_string}
use veloc.Header.Codec.{le_bytes, le_value}
use veloc.FileSystem.Disk.{Files, disk, disk-CopyLaws, disk-ReadLaws}
use veloc.FileUtil.{posix_transfer_file, overwrite}
use veloc.Storage.PosixAgg.{Stack, flush, restore, with_ranks, inner_part}
use veloc.Storage.PosixAgg.Overwrite.{overwrite_all}
use veloc.Storage.PosixAgg.Parts.{aggregated_restore-flush}

abbrev wave : Command
wave = record {
  unique_id = pos 0;
  command = Opcode.checkpoint;
  version = pos 7;
  offset = 0;
  name = codes "wave";
  original = [];
}

abbrev before : Files
before = (codes "/s/wave-0-7.dat", codes "data") ∷ []

-- The number of ranks, and the offsets of the two.
abbrev offsets : Bytes
offsets =
    2 ∷ 0 ∷ 0 ∷ 0 ∷ 0 ∷ 0 ∷ 0 ∷ 0 ∷ 0 ∷ 0 ∷ 0 ∷ 0 ∷ 0 ∷ 0 ∷ 0 ∷ 0 ∷ 4 ∷ 0 ∷ 0 ∷ 0 ∷ 0 ∷ 0 ∷ 0 ∷ 0
    ∷ []

abbrev elsewhere : Files
elsewhere =
    (codes "/p/wave-agg-7.dat", codes "datamore") ∷ (codes "/m/wave-agg-7.dat", offsets) ∷ []

abbrev stack : Stack
stack = record { num_ranks = []; offset = [] }

aggregated_restore-flush_example :
    disk.contents
      (restore disk (codes "/s") (codes "/p") (codes "/m") stack elsewhere wave).1
      (filename wave (codes "/s"))
    ≡ some (codes "data")
unfolding flush filename agg_filename to_string bytes_eq posix_transfer_file restore overwrite
    le_bytes le_value overwrite_all with_ranks inner_part
aggregated_restore-flush_example =
    aggregated_restore-flush disk-CopyLaws disk-ReadLaws (codes "/s") (codes "/p") (codes "/m")
      stack before elsewhere wave 0 2 [] [] (codes "data") ((4, codes "more") ∷ []) refl
      (omega arith) refl (inl (omega arith), tt) refl (omega arith) refl (omega arith) refl
      (λ e. cc) (record { written = refl; fits = omega arith }) refl refl
