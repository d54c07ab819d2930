-- ===== src/Inspect.antt =====
-- veloc-inspect, src/tools/veloc-inspect.cpp: what it prints for a checkpoint file. The options come
-- parsed by getopt_long, with the numbers that sscanf finds in them, if it does.
pub mod Laws
mod Tests
use veloc.Base.{
  ℕ, ◌+◌, ◌-◌, ◌%◌, ◌^◌, Bool, true, false, not, ◌&&◌, ◌||◌, Option, none, some, List, [], ◌∷◌, ltb,
  ◌==◌, if◌then◌else◌, length, drop,
}
use veloc.Base.Int.{ℤ, negsuc, pos, ltb_ℤ, ◌==ℤ◌}
use veloc.Base.Bytes.{Bytes}
use veloc.Base.IntMap.{IntMap}
use veloc.Queue.{is_empty}
use veloc.Header.{Header, read_header, read}

pub data Flag : Type 0 where
  header : Flag
  extract : Option ℤ → Flag
  size : Option ℕ → Flag
  ckpt : Bytes → Flag
  other : Flag

-- The variables of main.
pub record Args : Type 0 where
  pub header : Bool
  pub id : ℤ
  pub size : ℕ
  pub ckpt_name : Bytes

abbrev pub no_args : Args
no_args = record { header = false; id = negsuc 0; size = 0; ckpt_name = [] }

-- The loop over the options; `none` is exit_with_usage.
unfoldable pub parse : List Flag → Args → Option Args
parse [] a = some a
parse (Flag.header ∷ fs) a = parse fs (record a { header = true })
parse (Flag.extract none ∷ fs) a = none
parse (Flag.extract (some id) ∷ fs) a = parse fs (record a { id = id })
parse (Flag.size none ∷ fs) a = none
parse (Flag.size (some n) ∷ fs) a = parse fs (record a { size = n })
parse (Flag.ckpt name ∷ fs) a = parse fs (record a { ckpt_name = name })
parse (Flag.other ∷ fs) a = parse fs a

pub data Outcome : Type 0 where
  usage failed : Outcome
  -- the regions of the header, and their total size
  listed : IntMap ℕ → ℕ → Outcome
  extracted : Bytes → Outcome

-- The loop that adds up the sizes.
unfoldable pub total_size : IntMap ℕ → ℕ → ℕ
total_size [] total = total
total_size ((id, n) ∷ m) total = total_size m ((total + n) % 2 ^ 64)

-- The loop that looks for a region: the offset of its bytes, and its size.
unfoldable pub seek : ℤ → IntMap ℕ → ℕ → Option (ℕ × ℕ)
seek id [] offset = none
seek id ((j, n) ∷ m) offset =
    if id ==ℤ j then some (offset, n) else seek id m ((offset + n) % 2 ^ 64)

-- f.read behind f.seekg, and the output
unfoldable pub output : Option (Bytes × Bytes) → Outcome
output none = failed
output (some (bytes, rest)) = extracted bytes

unfoldable pub extract_from : Bytes → ℕ → Option (ℕ × ℕ) → Outcome
unfolding output
extract_from file wanted none = failed
extract_from file wanted (some (offset, n)) =
    if ltb n wanted
    then failed
    else output (read (if wanted == 0 then n else wanted) (drop offset file))

unfoldable pub extract_region : Option Bytes → Args → Header → Outcome
unfolding extract_from seek
extract_region none a h = failed
extract_region (some file) a h = extract_from file a.size (seek a.id h.info h.size)

unfoldable pub inspect : Option Bytes → Args → Outcome
unfolding extract_region total_size
inspect file a =
    let h = read_header file in
    if h.size == 0
    then failed
    else if a.header
    then listed h.info (total_size h.info 0)
    else extract_region file a h

-- main, over the files by their names.
unfoldable pub main : (Bytes → Option Bytes) → List Flag → Outcome
unfolding parse inspect
main contents flags = elim (parse flags no_args) [
  | none ↦ usage
  | some a ↦
      if is_empty a.ckpt_name || (not a.header && ltb_ℤ a.id (pos 0))
      then usage
      else inspect (contents a.ckpt_name) a
]
