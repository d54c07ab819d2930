-- ===== src/Header/RoundTrip.antt =====
-- read_header reads back what checkpoint_mem writes in front of the regions' data.
use veloc.Base.{
  ℕ, suc, ◌+◌, ◌*◌, ◌^◌, ◌<◌, ◌≡◌, refl, ◌∙◌, some, [], ◌∷◌, ◌++◌, append_assoc, arith, le→leb,
  lt→ltb, length, length-append, take-append, drop-append, All,
}
use native.Mathlib.Nat.{add_assoc}
use mathlib.Core.List.{append-nil}
use veloc.Base.Int.{ℤ, IsInt}
use veloc.Base.Bytes.{Bytes}
use veloc.Base.IntMap.{IntMap, insert, IsOrdered, Above, Below, Below-mono, Below-snoc, insert_last}
use veloc.Header.{
  Scan, scanned, ◌>>=◌, read, read_region, read_regions, read_header, read_count, finish,
  write_entries, write_header,
}
use veloc.Header.Codec.{
  le_bytes, int_bits, int_bytes, length-le_bytes, le_value-le_bytes, int_value-int_bytes,
}

-- The sum of the sizes of the regions.
abbrev pub total : IntMap ℕ → ℕ
total [] = 0
total ((_, n) ∷ m) = n + total m

-- Ids are ints and sizes are size_t values.
abbrev pub IsStored : IntMap ℕ → Type 0
IsStored = All λ (id, n). IsInt id × (n < 2 ^ 64)

pub read-append : (a b : Bytes) (n : ℕ) → length a ≡ n → read n (a ++ b) ≡ some (a, b)
unfolding read
read-append a b n e = rw (
  ← e,
  le→leb (length a) (length (a ++ b)) (omega (arith, length-append a b)),
  take-append,
  drop-append,
)

length-int_bytes : (a : ℤ) → length (int_bytes a) ≡ 4
unfolding int_bytes
length-int_bytes a = length-le_bytes 4 (int_bits a)

pub length-write_entries : (m : IntMap ℕ) → length (write_entries m) ≡ 12 * length m
unfolding write_entries
length-write_entries [] = refl
length-write_entries ((id, n) ∷ m) = omega (
  arith,
  length-append (int_bytes id) (le_bytes 8 n ++ write_entries m),
  length-append (le_bytes 8 n) (write_entries m),
  length-int_bytes id,
  length-le_bytes 8 n,
  length-write_entries m,
)

read_region-write :
    (id : ℤ) (n e : ℕ) (acc : IntMap ℕ) (r : Bytes)
    → IsInt id
    → n < 2 ^ 64
    → e + n < 2 ^ 64
    → read_region (record { rest = int_bytes id ++ (le_bytes 8 n ++ r); info = acc; expected = e })
      ≡ some (record { rest = r; info = insert id n acc; expected = e + n })
unfolding read_region
read_region-write id n e acc r hid hn he =
    rw (read-append (int_bytes id) (le_bytes 8 n ++ r) 4 (length-int_bytes id), ◌>>=◌)
      (rw (read-append (le_bytes 8 n) r 8 (length-le_bytes 8 n), ◌>>=◌)
        (rw (int_value-int_bytes id hid, le_value-le_bytes 8 n hn) (ground arith)))

read_regions_step :
    (n : ℕ) (s t : Scan) → read_region s ≡ some t → read_regions (suc n) s ≡ read_regions n t
unfolding read_regions
read_regions_step n s t e = rw (e, read_regions)

-- The keys that were read lie below those to come.
abbrev Continues : IntMap ℕ → IntMap ℕ → Type 0
Continues acc [] = Unit {0}
Continues acc ((k, _) ∷ m) = Below acc k × Above k m

Continues-snoc :
    (acc m : IntMap ℕ) (k : ℤ) (n : ℕ) → Below acc k → Above k m → Continues (acc ++ (k, n) ∷ []) m
Continues-snoc acc [] k n _ _ = tt
Continues-snoc acc ((j, _) ∷ m) k n b (lt, a) =
    (Below-snoc acc k j n (Below-mono k j acc lt b) lt, a)

read_regions-write :
    (m acc : IntMap ℕ) (e : ℕ) (data' : Bytes)
    → Continues acc m
    → IsStored m
    → e + total m < 2 ^ 64
    → read_regions (length m) (record { rest = write_entries m ++ data'; info = acc; expected = e })
      ≡ scanned (record { rest = data'; info = acc ++ m; expected = e + total m })
unfolding read_regions write_entries
read_regions-write [] acc e data' _ _ h = ground (arith, append-nil acc)
read_regions-write ((k, n) ∷ m) acc e data' (b, a) ((hk, hn), hm) h =
    rw
      (
        append_assoc (int_bytes k) (le_bytes 8 n ++ write_entries m) data',
        append_assoc (le_bytes 8 n) (write_entries m) data',
      )
      (read_regions_step (length m) _ _
          (read_region-write k n e acc (write_entries m ++ data') hk hn (omega arith))
        ∙ rw (insert_last k n acc b) (
            read_regions-write m (acc ++ (k, n) ∷ []) (e + n) data' (Continues-snoc acc m k n b a)
              hm (omega arith)
            ∙ rw (append_assoc acc ((k, n) ∷ []) m, add_assoc e n (total m))))

starts : (m : IntMap ℕ) → IsOrdered m → Continues [] m
starts [] _ = tt
starts ((k, _) ∷ m) h = (tt, h)

pub length-write_header : (m : IntMap ℕ) → length (write_header m) ≡ 8 + 12 * length m
unfolding write_header
length-write_header m = omega (
  arith,
  length-append (le_bytes 8 (length m)) (write_entries m),
  length-le_bytes 8 (length m),
  length-write_entries m,
)

-- For regions in the order of their ids and data of the size that they announce, the header
-- that was written is read back whole, with its own size.
pub read_header-write_header :
    (m : IntMap ℕ) (data' : Bytes)
    → IsOrdered m
    → IsStored m
    → length m < 2 ^ 32
    → total m < 2 ^ 64
    → length data' ≡ total m
    → read_header (some (write_header m ++ data')) ≡ record { size = 8 + 12 * length m; info = m }
unfolding read_header write_header
read_header-write_header m data' o s few fits len =
    rw (append_assoc (le_bytes 8 (length m)) (write_entries m) data') (
      rw
        (
          read-append (le_bytes 8 (length m)) (write_entries m ++ data') 8 (length-le_bytes 8 _),
          read_count,
        )
        (rw
          (
            le_value-le_bytes 8 (length m) (omega arith),
            lt→ltb (length m) (2 ^ 32) few,
            read_regions-write m [] 0 data' (starts m o) s (omega arith),
            finish,
          )
          (ground (
            arith,
            length-append (le_bytes 8 (length m)) (write_entries m ++ data'),
            length-append (write_entries m) data',
            length-le_bytes 8 (length m),
            length-write_entries m,
          ))))
