-- ===== src/Header.antt =====
-- The header of a checkpoint file: read_header of src/common/ckpt_util.cpp, and the header that
-- checkpoint_mem of src/lib/client.cpp writes. Numbers are little-endian, as on the machines that
-- the library is built for: a size_t has 8 bytes and an int 4.
pub mod Codec
pub mod RoundTrip
pub mod Prefix
mod Tests
use veloc.Base.{
  ℕ, zero, suc, ◌+◌, ◌-◌, ◌%◌, ◌^◌, Bool, true, false, Option, none, some, List, [], ◌∷◌, ◌++◌, ltb,
  leb, ◌==◌, if◌then◌else◌, length, take, drop,
}
use veloc.Base.Int.{ℤ}
use veloc.Base.Bytes.{Bytes}
use veloc.Base.IntMap.{IntMap, insert}
use Codec.{le_bytes, le_value, int_bytes, int_value}

infixl 5 ◌>>=◌
abbrev pub ◌>>=◌ {ℓ κ} : {A : Type ℓ} {B : Type κ} → Option A → (A → Option B) → Option B
none >>= f = none
some a >>= f = f a

-- ifstream::read of `n` bytes; `none` is the exception that failbit raises at the end of the file.
unfoldable pub read : ℕ → Bytes → Option (Bytes × Bytes)
read n s = if leb n (length s) then some (take n s, drop n s) else none

-- The variables of the loop: what is left of the file, region_info and expected_size.
pub record Scan : Type 0 where
  pub rest : Bytes
  pub info : IntMap ℕ
  pub expected : ℕ

unfoldable pub read_region : Scan → Option Scan
read_region s = do
  (id, r) ← read 4 s.rest
  (size, r) ← read 8 r
  some (record {
    rest = r;
    info = insert (int_value id) (le_value size) s.info;
    expected = (s.expected + le_value size) % 2 ^ 64;
  })

-- The loop ends by its count or by an exception; what went into region_info stays there.
pub data Outcome : Type 0 where
  failed : IntMap ℕ → Outcome
  scanned : Scan → Outcome

unfoldable pub read_regions : ℕ → Scan → Outcome
unfolding read_region
read_regions zero s = scanned s
read_regions (suc n) s = elim (read_region s) [ none ↦ failed s.info | some t ↦ read_regions n t ]

-- The loop's counter is an unsigned int, which never reaches a count of 2^32 or more: such a loop
-- ends when the file is used up, which takes fewer rounds than the file has bytes.
abbrev pub rounds : ℕ → Bytes → ℕ
rounds n file = if ltb n (2 ^ 32) then n else suc (length file)

-- What read_header returns, with region_info.
pub record Header : Type 0 where
  pub size : ℕ
  pub info : IntMap ℕ

-- The comparison of the sizes behind the loop.
finish : Bytes → Outcome → Header
finish file (failed info) = record { size = 0; info = info }
finish file (scanned s) = record {
  size = if length s.rest == s.expected then length file - length s.rest else 0;
  info = s.info;
}

read_count : Bytes → Option (Bytes × Bytes) → Header
unfolding read_regions finish
read_count file none = record { size = 0; info = [] }
read_count file (some (count, r)) =
    finish file
      (read_regions (rounds (le_value count) file) (record { rest = r; info = []; expected = 0 }))

-- `none` is a file that cannot be opened.
unfoldable pub read_header : Option Bytes → Header
unfolding read_count
read_header none = record { size = 0; info = [] }
read_header (some file) = read_count file (read 8 file)

-- The loop that writes the id and the size of each region.
unfoldable pub write_entries : IntMap ℕ → Bytes
write_entries [] = []
write_entries ((id, size) ∷ m) = int_bytes id ++ (le_bytes 8 size ++ write_entries m)

unfoldable pub write_header : IntMap ℕ → Bytes
unfolding write_entries
write_header m = le_bytes 8 (length m) ++ write_entries m
