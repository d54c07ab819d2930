-- ===== src/Header/Tests.antt =====
-- The header of a file with two regions, and the theorems about headers at that file.
use veloc.Base.{ℕ, ◌≡◌, refl, some, [], ◌∷◌, ◌++◌, arith}
use veloc.Base.Int.{pos, negsuc}
use veloc.Base.Bytes.{Bytes}
use veloc.Base.IntMap.{IntMap, insert}
use veloc.Header.{read, read_header, read_regions, write_header}
use veloc.Header.RoundTrip.{read_header-write_header}
use veloc.Header.Prefix.{IsAccepted, accepted-append}
use veloc.Header.Codec.{le_bytes, le_value, int_bytes, int_value}

abbrev two_regions : IntMap ℕ
two_regions = (negsuc 0, 3) ∷ (pos 258, 2) ∷ []

abbrev region_data : Bytes
region_data = 1 ∷ 2 ∷ 3 ∷ 4 ∷ 5 ∷ []

header_bytes :
    write_header two_regions
    ≡ 2 ∷ 0 ∷ 0 ∷ 0 ∷ 0 ∷ 0 ∷ 0 ∷ 0 ∷ 255 ∷ 255 ∷ 255 ∷ 255 ∷ 3 ∷ 0 ∷ 0 ∷ 0 ∷ 0 ∷ 0 ∷ 0 ∷ 0 ∷ 2 ∷ 1
      ∷ 0 ∷ 0 ∷ 2 ∷ 0 ∷ 0 ∷ 0 ∷ 0 ∷ 0 ∷ 0 ∷ 0 ∷ []
unfolding write_header int_bytes le_bytes
header_bytes = refl

-- A file that ends within the data is refused.
cut_short : (read_header (some (write_header two_regions ++ 1 ∷ 2 ∷ []))).size ≡ 0
unfolding read_header write_header int_bytes le_bytes le_value int_value read insert read_regions
cut_short = refl

abbrev one_region : Bytes
one_region = 1 ∷ 0 ∷ 0 ∷ 0 ∷ 0 ∷ 0 ∷ 0 ∷ 0 ∷ 7 ∷ 0 ∷ 0 ∷ 0 ∷ 1 ∷ 0 ∷ 0 ∷ 0 ∷ 0 ∷ 0 ∷ 0 ∷ 0 ∷ 9 ∷ []

one_region-IsAccepted : IsAccepted one_region
unfolding read_header le_value int_value read insert read_regions
one_region-IsAccepted = λ e. cc

read_header-write_header_example :
    read_header (some (write_header two_regions ++ region_data))
    ≡ record { size = 32; info = two_regions }
read_header-write_header_example =
    read_header-write_header two_regions region_data ((omega arith, tt))
      (((omega arith, omega arith), omega arith), (((omega arith, omega arith), omega arith), tt))
      (omega arith) (omega arith) refl

accepted-append_example : (read_header (some (one_region ++ 0 ∷ []))).size ≡ 0
accepted-append_example = accepted-append one_region (0 ∷ []) one_region-IsAccepted (λ e. cc)
