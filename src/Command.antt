-- ===== src/Command.antt =====
-- command_t of src/common/command.hpp and command.cpp: the request that a client sends to the
-- active backend, and the file names that are derived from it. The text of numbers is in
-- Decimal, the file name parser in Match, and the names that are accepted in Name.
pub mod Decimal
pub mod Match
pub mod Name
mod Tests
use veloc.Base.{
  ℕ, ◌+◌, ◌<◌, ◌≡◌, Bool, true, false, Option, none, some, List, [], ◌∷◌, ◌++◌, arith, ltb, ◌==◌,
  if◌then◌else◌, length,
}
use veloc.Base.Int.{ℤ, pos, negsuc}
use veloc.Base.Bytes.{Bytes, codes}
use Decimal.{to_string}

-- The constants INIT, CHECKPOINT, RESTART, TEST and STATUS, in the order of their values.
pub data Opcode : Type 0 where
  init checkpoint restart test status : Opcode

abbrev pub id_ec : ℤ
id_ec = negsuc 0

abbrev pub id_agg : ℤ
id_agg = negsuc 1

abbrev pub ckpt_name_max : ℕ
ckpt_name_max = 128

-- The value of PATH_MAX on Linux.
abbrev pub path_max : ℕ
path_max = 4096

pub record Command : Type 0 where
  pub unique_id : ℤ
  pub command : Opcode
  pub version : ℤ
  pub offset : ℕ
  pub name : Bytes
  pub original : Bytes

-- What strcpy takes from a string's c_str(): the bytes before the first zero.
unfoldable pub c_str : Bytes → Bytes
c_str [] = []
c_str (b ∷ bs) = if b == 0 then [] else b ∷ c_str bs

-- The constructor. `none` is the FATAL exit on a name that does not fit.
unfoldable pub make : ℤ → Opcode → ℤ → Bytes → Option Command
make r c v src =
    if ltb ckpt_name_max (length src + 1)
    then none
    else some (record {
      unique_id = r;
      command = c;
      version = v;
      offset = 0;
      name = c_str src;
      original = [];
    })

unfoldable pub assign_path : Command → Bytes → Option Command
assign_path c src =
    if ltb path_max (length src + 1) then none else some (record c { original = c_str src })

unfoldable pub stem : Command → Bytes
stem c =
    c.name
    ++ (codes "-"
        ++ (to_string c.unique_id ++ (codes "-" ++ (to_string c.version ++ codes ".dat"))))

unfoldable pub filename : Command → Bytes → Bytes
unfolding stem
filename c prefix = prefix ++ (codes "/" ++ stem c)

unfoldable pub meta_filename : Command → Bytes → Bytes
meta_filename c prefix = filename c prefix ++ codes ".chksum"

-- The last component of `agg_filename`.
abbrev pub agg_stem : Command → Bytes
agg_stem c = c.name ++ (codes "-agg-" ++ (to_string c.version ++ codes ".dat"))

unfoldable pub agg_filename : Command → Bytes → Bytes
agg_filename c prefix = prefix ++ (codes "/" ++ agg_stem c)
