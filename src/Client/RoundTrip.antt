-- ===== src/Client/RoundTrip.antt =====
-- A checkpoint that checkpoint_mem reports as written is restored by recover_mem as it was, or else
-- refused: whatever part of the file came to the disk, the application never gets wrong data.
use veloc.Base.{◌+◌, ◌*◌, ◌<◌, ◌^◌, ◌≡◌, some, ◌++◌, length}
use veloc.Base.Bytes.{Bytes}
use veloc.Base.IntMap.{IsOrdered}
use veloc.FileSystem.{FileSystem}
use veloc.Header.{Header, read_header, write_header}
use veloc.Header.RoundTrip.{total, read_header-write_header}
use veloc.Client.Memory.{Memory}
use veloc.Client.State.{Regions, Client}
use veloc.Client.Copy.{
  IsRaw, sizes, region_data, length-region_data, sizes-IsStored, sizes-IsOrdered,
}

-- The regions that a checkpoint can hold.
pub record IsStorable (rs : Regions) : Type 0 where
  pub raws : IsRaw rs
  pub ordered : IsOrdered rs
  pub few : length (sizes rs) < 2 ^ 32
  pub small : total (sizes rs) < 2 ^ 64

abbrev pub image : Memory → Regions → Bytes
image m rs = write_header (sizes rs) ++ region_data m rs

pub image-header :
    (m : Memory) (rs : Regions)
    → IsStorable rs
    → read_header (some (image m rs))
      ≡ record { size = 8 + 12 * length (sizes rs); info = sizes rs }
image-header m rs h =
    read_header-write_header (sizes rs) (region_data m rs) (sizes-IsOrdered rs h.raws h.ordered)
      (sizes-IsStored rs h.raws) h.few h.small (length-region_data m rs)
