-- ===== src/Storage/Axl/Tests.antt =====
-- A library that copies at once, on a small disk.
use veloc.Base.{if_true, ◌≡◌, refl, some, [], ◌∷◌, Option, none}
use veloc.Base.Int.{ℤ, pos, negsuc}
use veloc.Base.Bytes.{Bytes, codes, bytes_eq, bytes_eq_refl}
use veloc.Command.{Command, Opcode}
use veloc.FileSystem.Disk.{Files, disk, lookup}
use veloc.Storage.Axl.{Axl}
use veloc.Storage.Axl.Laws.{AxlLaws}

abbrev wave : Command
wave = record {
  unique_id = pos 12;
  command = Opcode.checkpoint;
  version = pos 7;
  offset = 0;
  name = codes "wave";
  original = [];
}

-- A library that copies the file when it is added, if it is there.
abbrev copy_now : Option Bytes → Bytes → Files → ℤ × Files
copy_now none q fs = (negsuc 0, fs)
copy_now (some b) q fs = (pos 0, (q, b) ∷ fs)

abbrev eager : Axl disk
eager = record {
  init = λ fs. (pos 0, fs);
  create = λ t p fs. (pos 1, fs);
  add = λ id p q fs. copy_now (lookup fs p) q fs;
  dispatch = λ id fs. (pos 0, fs);
  wait = λ id fs. (pos 0, fs);
  free = λ id fs. (pos 0, fs);
}

copy_now_lem :
    (o : Option Bytes) (q : Bytes) (fs : Files)
    → (copy_now o q fs).0 ≡ pos 0
    → lookup (copy_now o q fs).1 q ≡ o
copy_now_lem none q fs h = cc
copy_now_lem (some b) q fs _ = if_true (bytes_eq q q) _ _ (bytes_eq_refl q)

eager-AxlLaws : AxlLaws eager
eager-AxlLaws = record {
  contents-waited = λ t p q s added _ _. copy_now_lem (lookup s p) q s added;
  contents-free = λ id q s. refl;
}

abbrev before : Files
before =
    (codes "/s/wave-12-7.dat", codes "data") ∷ (codes "/p/wave-12-7.dat", codes "longer data") ∷ []

-- Another node, with the same persistent directory.
abbrev elsewhere : Files
elsewhere = (codes "/p/wave-12-7.dat", codes "data") ∷ []
