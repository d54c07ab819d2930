-- ===== src/Modules/Chksum.antt =====
-- chksum_module_t of src/modules/chksum_module.cpp. SHA256 is OpenSSL's, and a parameter.
pub mod Laws
use veloc.Base.{Bool, true, false, Option, none, some, ℕ, List, [], ◌∷◌, if◌then◌else◌}
use veloc.Base.Int.{ℤ}
use veloc.Base.Bytes.{Bytes, bytes_eq}
use veloc.Command.{Command, Opcode, filename, meta_filename}
use veloc.Queue.{success, failure, ignored}
use veloc.FileSystem.{FileSystem}
use veloc.FileUtil.{read_file, write_file}

abbrev pub hash_size : ℕ
hash_size = 32

pub record Config : Type 0 where
  pub active : Bool
  pub meta : Bytes
  pub scratch : Bytes

module _ (F : FileSystem) (sha256 : Bytes → Bytes) where
  -- `none` where the file cannot be opened, or is empty, which mmap refuses.
  hash : Option Bytes → Option Bytes
  hash none = none
  hash (some []) = none
  hash (some (b ∷ bs)) = some (sha256 (b ∷ bs))

  unfoldable pub chksum_file : F.State → Bytes → Option Bytes
  unfolding hash
  chksum_file fs source = hash (F.contents fs source)

  store_chksum : Config → Command → F.State → Option Bytes → ℤ × F.State
  store_chksum cfg c fs none = (failure, fs)
  store_chksum cfg c fs (some chksum) =
      let (done, fs') = write_file F fs (meta_filename c cfg.meta) chksum in
      (if done then success else failure, fs')

  compare_chksum : Option Bytes → Option Bytes → ℤ
  compare_chksum none chksum = failure
  compare_chksum (some orig) none = failure
  compare_chksum (some orig) (some chksum) = if bytes_eq chksum orig then success else failure

  dispatch : Opcode → Config → Command → F.State → ℤ × F.State
  unfolding chksum_file store_chksum compare_chksum
  dispatch Opcode.checkpoint cfg c fs =
      store_chksum cfg c fs (chksum_file fs (filename c cfg.scratch))
  dispatch Opcode.restart cfg c fs = (
    compare_chksum (read_file F fs (meta_filename c cfg.meta) hash_size)
        (chksum_file fs (filename c cfg.scratch)),
    fs,
  )
  dispatch _ cfg c fs = (ignored, fs)

  unfoldable pub process_command : Config → Command → F.State → ℤ × F.State
  unfolding dispatch
  process_command cfg c fs = if cfg.active then dispatch c.command cfg c fs else (ignored, fs)
