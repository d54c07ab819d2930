-- ===== src/FileSystem/Disk.antt =====
-- A small disk that fulfils the laws, on which the definitions are run.
use veloc.Base.{
  ℕ, refl, ap, Bool, true, false, Option, none, some, List, [], ◌∷◌, if◌then◌else◌, length, take,
  drop, take_all,
}
use veloc.Base.Bytes.{Bytes, bytes_eq, bytes_eq_refl}
use veloc.FileUtil.{overwrite, CopyLaws}
use veloc.FileSystem.{FileSystem, EntryType, WriteLaws, StreamLaws, ReadLaws, bytes_of}

-- The files of the disk, the latest first.
abbrev pub Files : Type 0
Files = List (Bytes × Bytes)

abbrev pub lookup : Files → Bytes → Option Bytes
lookup [] q = none
lookup ((p, b) ∷ s) q = if bytes_eq q p then some b else lookup s q

abbrev pub is_there : Option Bytes → Bool
is_there none = false
is_there (some b) = true

abbrev pub read_at : Option Bytes → ℕ → ℕ → Option Bytes
read_at none offset size = none
read_at (some b) offset size = some (take size (drop offset b))

abbrev pub entries : Files → List (EntryType × Bytes)
entries [] = []
entries ((p, b) ∷ s) = (EntryType.regular, p) ∷ entries s

abbrev pub without : Bytes → Files → Files
without q [] = []
without q ((p, b) ∷ s) = let rest = without q s in if bytes_eq q p then rest else (p, b) ∷ rest

abbrev pub disk : FileSystem
disk = record {
  State = Files;
  can_read = λ s p. is_there (lookup s p);
  list_dir = λ s p. some (entries s);
  unlink = λ s p. (is_there (lookup s p), without p s);
  contents = lookup;
  write = λ s p b. (true, (p, b) ∷ s);
  stream_out = λ s p b. (true, (p, b) ∷ s);
  copy_in = λ s p n b. (true, (p, overwrite n b (bytes_of (lookup s p))) ∷ s);
  pread = λ s p offset size. read_at (lookup s p) offset size;
  mkdir = λ s p. s;
  symlink = λ s t p. (false, s);
}

pub disk-WriteLaws : WriteLaws disk
disk-WriteLaws = record { contents-write = λ s p q b _. refl }

pub disk-StreamLaws : StreamLaws disk
disk-StreamLaws = record {
  contents-stream_out = λ s p b _. (length b, rw (bytes_eq_refl p, take_all b) refl);
}

pub disk-ReadLaws : ReadLaws disk
disk-ReadLaws = record { pread-contents = λ s p b offset size e. ap (λ o. read_at o offset size) e }

pub disk-CopyLaws : CopyLaws disk
disk-CopyLaws = record { contents-copy_in = λ s p q n b _. refl }
