-- ===== src/FileUtil.antt =====
-- parse_dir, check_dir, file_size, read_file, write_file and posix_transfer_file of src/common/file_util.cpp; the
-- loop of the last one is the child Transfer, and ReadWrite its other variant.
pub mod Transfer
pub mod ReadWrite
mod Tests
use veloc.Base.{
  ℕ, ◌≡◌, Bool, true, false, Option, none, some, List, [], ◌∷◌, ◌++◌, leb, zero, suc, ◌+◌, ◌-◌, ◌%◌,
  ◌^◌, drop, if◌then◌else◌, length, take,
}
use Prim.Native.Nat.{min}
use veloc.Base.Int.{ℤ, pos, negsuc}
use veloc.Base.Bytes.{Bytes, codes, bytes_eq}
use veloc.FileSystem.{FileSystem, bytes_of, EntryType, regular, link, other}
use veloc.Command.Match.{match, matched, no_match, out_of_range}

-- How a walk over a directory ends: by its return, with what it returns, or by the exception that
-- the parser of file names lets through. The visits before it have been made in either case.
pub data Walk {ℓ} (S : Type ℓ) : Type ℓ where
  returned : Bool → S → Walk S
  threw : S → Walk S

-- d_type == DT_REG || d_type == DT_LNK
abbrev pub is_file : EntryType → Bool
is_file regular = true
is_file link = true
is_file other = false

module _ {S : Type 0} (visit : Bytes → ℤ → ℤ → S → S) (p cname : Bytes) where
  walk : List (EntryType × Bytes) → S → Walk S
  walk [] s = returned true s
  walk ((t, name) ∷ entries) s = elim (is_file t) [
    | false ↦ walk entries s
    | true ↦ elim (match name cname) [
      | no_match ↦ walk entries s
      | out_of_range ↦ threw s
      | matched id version ↦ walk entries (visit (p ++ (codes "/" ++ name)) id version s)
    ]
  ]

  opened : S → Option (List (EntryType × Bytes)) → Walk S
  opened s none = returned false s
  opened s (some entries) = walk entries s

unfoldable pub parse_dir :
    {S : Type 0} (F : FileSystem) → F.State → Bytes → Bytes → (Bytes → ℤ → ℤ → S → S) → S → Walk S
unfolding walk opened
parse_dir F fs p cname visit s = opened visit p cname s (F.list_dir fs p)

-- -1 if the file cannot be examined
unfoldable pub file_size : (F : FileSystem) → F.State → Bytes → ℤ
file_size F fs source = elim (F.contents fs source) [ none ↦ negsuc 0 | some b ↦ pos (length b) ]

-- The directory is made unless it is there, and has to be one that can be opened.
unfoldable pub check_dir : (F : FileSystem) → F.State → Bytes → Bool × F.State
check_dir F fs d =
    let fs' = F.mkdir fs d in (elim (F.list_dir fs' d) [ none ↦ false | some entries ↦ true ], fs')

unfoldable pub write_file : (F : FileSystem) → F.State → Bytes → Bytes → Bool × F.State
write_file F fs source buffer = F.write fs source buffer

-- The first `size` bytes, or `none` if the file cannot be opened or is shorter.
unfoldable pub read_file : (F : FileSystem) → F.State → Bytes → ℕ → Option Bytes
read_file F fs source size = elim (F.contents fs source) [
  | none ↦ none
  | some b ↦ if leb size (length b) then some (take size b) else none
]

-- What copies of the bytes `part` to the offset make of a file, which is filled with zeros up to it.
abbrev pub zeros : ℕ → Bytes
zeros zero = []
zeros (suc n) = 0 ∷ zeros n

unfoldable pub overwrite : ℕ → Bytes → Bytes → Bytes
overwrite offset part [] = zeros offset ++ part
overwrite zero [] (b ∷ bs) = b ∷ bs
overwrite zero (a ∷ part) (b ∷ bs) = a ∷ overwrite zero part bs
overwrite (suc offset) part (b ∷ bs) = b ∷ overwrite offset part bs

-- posix_transfer_file. Sizes are of type size_t; the bytes of the part go to the destination by the
-- loop of Transfer, whose opens and copies are one call of the file system here.
unfoldable pub posix_transfer_file :
    (F : FileSystem) → F.State → Bytes → Bytes → ℕ → ℕ → ℕ → Bool × F.State
posix_transfer_file F fs source dest soffset doffset size = elim (F.contents fs source) [
  | none ↦ (false, fs)
  | some b ↦
      let remaining = min size ((length b + 2 ^ 64 - soffset) % 2 ^ 64) in
      F.copy_in fs dest doffset (take remaining (drop soffset b))
]

-- What is relied on for copy_in: if it succeeds the bytes are in the file, and no other file is
-- touched.
pub record CopyLaws (F : FileSystem) : Type 0 where
  pub contents-copy_in :
      (s : F.State) (p q : Bytes) (n : ℕ) (b : Bytes)
      → (F.copy_in s p n b).0 ≡ true
      → F.contents (F.copy_in s p n b).1 q ≡ (
          if bytes_eq q p then some (overwrite n b (bytes_of (F.contents s p))) else F.contents s q)
