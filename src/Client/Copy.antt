-- ===== src/Client/Copy.antt =====
-- What the loops of checkpoint_mem and recover_mem do for regions of raw memory: the first puts the
-- bytes of the regions into the file, the second puts them where the regions are by then.
use veloc.Base.{
  ℕ, ◌≤◌, ◌<◌, ◌^◌, ◌≡◌, refl, true, false, some, [], ◌∷◌, ◌++◌, arith, ltb, le→leb, ◌==◌,
  if◌then◌else◌, length, length-append, take, drop, take-append, drop-append, inl, inr, Bool-cases,
}
use veloc.Base.Int.{ℤ, IsInt}
use veloc.Base.Bytes.{Bytes}
use veloc.Base.IntMap.{IntMap, find, IsOrdered, Above}
use veloc.Header.RoundTrip.{total, IsStored}
use veloc.Client.Memory.{Memory, read_mem, write_mem, length-read_mem}
use veloc.Client.State.{raw, object, Regions}
use veloc.Client.Checkpoint.{Select, Ids, region_bytes, write_data}
use veloc.Client.Restart.{going, wanted, recover_region, read_raw, recover_regions}

-- Regions of raw memory, none of them at NULL, with an int as their id and a size_t as their size.
abbrev pub IsRaw : Regions → Type 0
IsRaw [] = Unit
IsRaw ((id, raw ptr size) ∷ rs) = (IsInt id × (size < 2 ^ 64) × ((ptr == 0) ≡ false)) × IsRaw rs
IsRaw ((id, object s d) ∷ rs) = true ≡ false

-- The entries of the header, and the bytes behind it.
abbrev pub sizes : Regions → IntMap ℕ
sizes [] = []
sizes ((id, raw ptr size) ∷ rs) = (id, size) ∷ sizes rs
sizes ((id, object s d) ∷ rs) = sizes rs

abbrev pub region_data : Memory → Regions → Bytes
region_data m [] = []
region_data m ((id, raw ptr size) ∷ rs) = read_mem m ptr size ++ region_data m rs
region_data m ((id, object s d) ∷ rs) = region_data m rs

pub write_data-raw :
    (m : Memory) (rs : Regions) → IsRaw rs → write_data m rs ≡ some (sizes rs, region_data m rs)
unfolding write_data region_bytes
write_data-raw m [] _ = refl
write_data-raw m ((id, raw ptr size) ∷ rs) ((_, _, p), h) =
    rw (p, write_data-raw m rs h, length-read_mem m ptr size) refl
write_data-raw m ((id, object s d) ∷ rs) h = absurd (cc h)

pub length-region_data : (m : Memory) (rs : Regions) → length (region_data m rs) ≡ total (sizes rs)
length-region_data m [] = refl
length-region_data m ((id, raw ptr size) ∷ rs) = omega (
  arith,
  length-append (read_mem m ptr size) (region_data m rs),
  length-read_mem m ptr size,
  length-region_data m rs,
)
length-region_data m ((id, object s d) ∷ rs) = length-region_data m rs

pub sizes-IsStored : (rs : Regions) → IsRaw rs → IsStored (sizes rs)
sizes-IsStored [] _ = tt
sizes-IsStored ((id, raw ptr size) ∷ rs) ((i, s, _), h) = ((i, s), sizes-IsStored rs h)
sizes-IsStored ((id, object s d) ∷ rs) h = absurd (cc h)

sizes-Above : (k : ℤ) (rs : Regions) → IsRaw rs → Above k rs → Above k (sizes rs)
sizes-Above k [] _ _ = tt
sizes-Above k ((id, raw ptr size) ∷ rs) (_, h) (lt, a) = (lt, sizes-Above id rs h a)
sizes-Above k ((id, object s d) ∷ rs) h _ = absurd (cc h)

pub sizes-IsOrdered : (rs : Regions) → IsRaw rs → IsOrdered rs → IsOrdered (sizes rs)
sizes-IsOrdered [] _ _ = tt
sizes-IsOrdered ((id, raw ptr size) ∷ rs) (_, h) a = sizes-Above id rs h a
sizes-IsOrdered ((id, object s d) ∷ rs) h _ = absurd (cc h)

-- Where the regions are when they are read: each one that is wanted has room at `to id`.
module _ (mode : Select) (ids : Ids) (own : Regions) (to : ℤ → ℕ) where
  abbrev pub HasRoom : Regions → Type 0
  HasRoom [] = Unit
  HasRoom ((id, raw ptr size) ∷ rs) =
      (wanted mode ids id ≡ true
        → (room : ℕ) × (find id own ≡ some (raw (to id) room))
          × ((to id == 0) ≡ false)
          × (size ≤ room))
      × HasRoom rs
  HasRoom ((id, object s d) ∷ rs) = HasRoom rs

-- The memory behind a restart: the bytes of the wanted regions of `m`, one region after the other,
-- over the memory `m'`.
abbrev pub restored : Select → Ids → (ℤ → ℕ) → Memory → Regions → Memory → Memory
restored mode ids to m [] m' = m'
restored mode ids to m ((id, raw ptr size) ∷ rs) m' =
    restored mode ids to m rs
      (if wanted mode ids id then write_mem (to id) (read_mem m ptr size) m' else m')
restored mode ids to m ((id, object s d) ∷ rs) m' = restored mode ids to m rs m'

take_size : (s t : Bytes) (n : ℕ) → length s ≡ n → take n (s ++ t) ≡ s
take_size s t n e = rw (← e) (take-append s t)

drop_size : (s t : Bytes) (n : ℕ) → length s ≡ n → drop n (s ++ t) ≡ t
drop_size s t n e = rw (← e) (drop-append s t)

fits : (room size : ℕ) → size ≤ room → ltb room size ≡ false
fits room size h = ground arith

recover_region-raw :
    (m m' : Memory) (ptr ptr' size room : ℕ) (rest : Bytes)
    → (ptr' == 0) ≡ false
    → size ≤ room
    → recover_region (some (raw ptr' room)) size (read_mem m ptr size ++ rest) m'
      ≡ going rest (write_mem ptr' (read_mem m ptr size) m')
unfolding recover_region read_raw
recover_region-raw m m' ptr ptr' size room rest p h =
    let len = length-read_mem m ptr size in
    rw
      (
        p,
        fits room size h,
        le→leb size (length (read_mem m ptr size ++ rest))
            (omega (arith, length-append (read_mem m ptr size) rest)),
        take_size (read_mem m ptr size) rest size len,
        drop_size (read_mem m ptr size) rest size len,
      )
      refl

pub recover_regions-raw :
    (mode : Select) (ids : Ids) (own : Regions) (to : ℤ → ℕ) (m : Memory) (rs : Regions)
    (m' : Memory)
    → IsRaw rs
    → HasRoom mode ids own to rs
    → recover_regions mode ids own (sizes rs) (region_data m rs) m'
      ≡ going [] (restored mode ids to m rs m')
unfolding recover_regions
recover_regions-raw mode ids own to m [] m' _ _ = refl
recover_regions-raw mode ids own to m ((id, object s d) ∷ rs) m' h _ = absurd (cc h)
recover_regions-raw mode ids own to m ((id, raw ptr size) ∷ rs) m' (_, h) (here, room) =
    elim (Bool-cases (wanted mode ids id)) [
      | inl w ↦
          let (space, found, p, le) = here w in
          rw (w, recover_regions, found)
            (rw (recover_region-raw m m' ptr (to id) size space (region_data m rs) p le)
              (recover_regions-raw mode ids own to m rs _ h room))
      | inr w ↦
          rw
            (
              w,
              recover_regions,
              drop_size (read_mem m ptr size) (region_data m rs) size (length-read_mem m ptr size),
            )
            (recover_regions-raw mode ids own to m rs m' h room)
    ]
