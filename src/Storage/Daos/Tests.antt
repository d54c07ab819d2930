-- ===== src/Storage/Daos/Tests.antt =====
-- Stores that are files of a small disk.
use veloc.Base.{
  ap, if◌then◌else◌, ℕ, ◌≡◌, refl, true, false, some, none, [], ◌∷◌, Option, length, if_true,
}
use veloc.Base.Int.{ℤ, pos, ◌==ℤ◌, ==ℤ_refl}
use veloc.Base.Bytes.{Bytes, codes, bytes_eq, bytes_eq_refl}
use veloc.Command.{Command, Opcode, stem}
use veloc.FileSystem.{FileSystem}
use veloc.FileSystem.Disk.{Files, disk, lookup}
use veloc.FileUtil.{zeros}
use veloc.Storage.Daos.{Daos}
use veloc.Storage.Daos.Laws.{DaosLaws}

abbrev wave : Command
wave = record {
  unique_id = pos 12;
  command = Opcode.checkpoint;
  version = pos 7;
  offset = 0;
  name = codes "wave";
  original = [];
}

-- The small disk, and beside it the values.
abbrev Values : Type 0
Values = ℤ → Bytes → Option Bytes

abbrev both : FileSystem
both = record {
  State = Files × Values;
  can_read = λ s p. disk.can_read s.0 p;
  list_dir = λ s p. disk.list_dir s.0 p;
  unlink = λ s p. ((disk.unlink s.0 p).0, ((disk.unlink s.0 p).1, s.1));
  contents = λ s p. lookup s.0 p;
  write = λ s p b. (true, ((p, b) ∷ s.0, s.1));
  stream_out = λ s p b. (true, ((p, b) ∷ s.0, s.1));
  copy_in = λ s p n b. (false, s);
  pread = λ s p offset size. disk.pread s.0 p offset size;
  mkdir = λ s p. s;
  symlink = λ s t p. (false, s);
}

abbrev size_of : Option Bytes → Option ℕ
size_of none = none
size_of (some b) = some (length b)

abbrev set_value : ℤ → Bytes → Bytes → Values → Values
set_value id key b values i k =
    if i ==ℤ id then (if bytes_eq k key then some b else values i k) else values i k

abbrev stores : Daos both
stores = record {
  init = λ s. (true, s);
  connect = λ pool s. (true, s);
  open_container = λ cont s. (true, s);
  opens = λ s id. true;
  keys = λ s id. [];
  put = λ s id key b. (true, (s.0, set_value id key b s.1));
  get_size = λ s id key. size_of (s.1 id key);
  get = λ s id key. s.1 id key;
  remove = λ s id key. (true, s);
  can_map = λ s p n. true;
  allocate = λ s p n. (true, ((p, zeros n) ∷ s.0, s.1));
  fill = λ s p b. ((p, b) ∷ s.0, s.1);
}

put_there : (id : ℤ) (key b : Bytes) (values : Values) → set_value id key b values id key ≡ some b
put_there id key b values = rw (==ℤ_refl id, bytes_eq_refl key) refl

stores-DaosLaws : DaosLaws stores
stores-DaosLaws = record {
  get-put = λ s id key b _. (ap size_of (put_there id key b s.1), put_there id key b s.1);
  get-allocate = λ s p n id key. refl;
  contents-fill = λ s p b _. if_true (bytes_eq p p) _ _ (bytes_eq_refl p);
}

abbrev before : both.State
before = ((codes "/s/wave-12-7.dat", codes "data") ∷ [], λ id key. none)

-- Another node, with the stores as they are behind the flush.
abbrev elsewhere : both.State
elsewhere = ([], set_value (pos 12) (stem wave) (codes "data") (λ id key. none))
