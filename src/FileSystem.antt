-- ===== src/FileSystem.antt =====
-- The system calls that the library makes on files, over an unknown state of the disk. They are not
-- part of the repository: what is used of them is a parameter of the definitions that call them.
pub mod Disk
use veloc.Base.{ℕ, ◌≡◌, Bool, true, false, Option, none, some, List, [], if◌then◌else◌, take, drop}
use veloc.Base.Bytes.{Bytes, bytes_eq}

-- d_type of a directory entry
pub data EntryType : Type 0 where
  regular link other : EntryType

pub record FileSystem : Type 1 where
  pub State : Type 0
  -- access(path, R_OK) == 0
  pub can_read : State → Bytes → Bool
  -- opendir and readdir up to the end; `none` if the directory cannot be opened
  pub list_dir : State → Bytes → Option (List (EntryType × Bytes))
  -- unlink(path) == 0, and the state behind the call
  pub unlink : State → Bytes → Bool × State
  -- the bytes of a file that can be opened
  pub contents : State → Bytes → Option Bytes
  -- open with O_CREAT | O_TRUNC, write and close; false if one of them fails or writes less
  pub write : State → Bytes → Bytes → Bool × State
  -- an ofstream that is opened with trunc, written to and destroyed: false if opening it or one of
  -- its writes raises the exception. The last of the bytes go to the file when the stream is
  -- destroyed, and a failure of that is not seen.
  pub stream_out : State → Bytes → Bytes → Bool × State
  -- open with O_CREAT and without O_TRUNC, and writes at an offset until all of the bytes are there;
  -- false if one of these fails
  pub copy_in : State → Bytes → ℕ → Bytes → Bool × State
  -- pread of a file that could be opened, at an offset and of a size; `none` is -1
  pub pread : State → Bytes → ℕ → ℕ → Option Bytes
  -- mkdir(path), whose result is not looked at
  pub mkdir : State → Bytes → State
  -- symlink(target, path) == 0
  pub symlink : State → Bytes → Bytes → Bool × State

-- A successful write makes the bytes the contents of the path, and touches no other.
pub record WriteLaws (F : FileSystem) : Type 0 where
  pub contents-write :
      (s : F.State) (p q b : Bytes)
      → (F.write s p b).0 ≡ true
      → F.contents (F.write s p b).1 q ≡ (if bytes_eq q p then some b else F.contents s q)

-- What is relied on for a stream: if no exception was raised the file has the bytes, or the first
-- of them if the last ones could not be written.
pub record StreamLaws (F : FileSystem) : Type 0 where
  pub contents-stream_out :
      (s : F.State) (p b : Bytes)
      → (F.stream_out s p b).0 ≡ true
      → (n : ℕ) × (F.contents (F.stream_out s p b).1 p ≡ some (take n b))

-- A pread is of what is there, which may be less than what was asked for.
pub record ReadLaws (F : FileSystem) : Type 0 where
  pub pread-contents :
      (s : F.State) (p b : Bytes) (offset size : ℕ)
      → F.contents s p ≡ some b
      → F.pread s p offset size ≡ some (take size (drop offset b))

abbrev pub bytes_of : Option Bytes → Bytes
bytes_of none = []
bytes_of (some b) = b
